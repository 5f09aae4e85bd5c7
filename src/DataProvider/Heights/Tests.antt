-- ===== src/DataProvider/Heights/Tests.antt =====
-- Two messages of one process and one of another, in two orders.
use mathlib.Core.List.{Perm, Permᴰ}
use runtime_bridge.Prelude.{◌≡◌, refl, List, [], ◌∷◌}
use runtime_bridge.Prelude.Int.{ℤ, pos, ◌-ℤ◌}
use runtime_bridge.DataProvider.Heights.{
  Height, para_target, para_processed_height, no_heights, update_number, handle_messages, status,
  s_synching,
}
use runtime_bridge.DataProvider.Heights.Order.{handle_messages-Perm}

abbrev some_order : List (Height × ℤ)
some_order = (para_target, pos 9) ∷ (para_processed_height, pos 4) ∷ (para_target, pos 7) ∷ []

abbrev other_order : List (Height × ℤ)
other_order = (para_processed_height, pos 4) ∷ (para_target, pos 9) ∷ (para_target, pos 7) ∷ []

swapped : Perm some_order other_order
swapped = ∣ Permᴰ.swap refl refl ∣₁

handle_messages-Perm_example :
    ((k : Height)
      → handle_messages some_order no_heights k ≡ handle_messages other_order no_heights k)
    × (status (handle_messages some_order no_heights)
        ≡ status (handle_messages other_order no_heights))
handle_messages-Perm_example = handle_messages-Perm some_order other_order no_heights swapped

keeps_the_greatest : handle_messages some_order no_heights para_target ≡ pos 9
unfolding handle_messages update_number
keeps_the_greatest = refl

is_synching : status (handle_messages some_order no_heights) ≡ s_synching
unfolding status handle_messages update_number ◌-ℤ◌
is_synching = refl
