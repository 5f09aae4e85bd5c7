-- ===== src/DataProvider/Heights/Order.antt =====
-- ipc.ts: the order of messages does not matter.
use mathlib.Core.Path.{fun_ext}
use mathlib.Core.Logic.{∥∥₁_elim}
use mathlib.Core.List.{Perm, Permᴰ}
use runtime_bridge.Prelude.{◌≡◌, refl, ap, ◌∙◌, List, arith}
use runtime_bridge.DataProvider.Heights.{
  Height, Heights, raised, update_number, handle_messages, Status, status,
}
use runtime_bridge.Prelude.Int.{ℤ, ℤ-discrete}

raised_comm : (h a b : ℤ) → raised (raised h a) b ≡ raised (raised h b) a
raised_comm h a b = ground arith

update_number_comm :
    (j k : Height) (a b : ℤ) (info : Heights)
    → update_number j a (update_number k b info) ≡ update_number k b (update_number j a info)
unfolding update_number
update_number_comm j k a b info = fun_ext (λ i. ground (arith, raised_comm (info i) a b))

perm_same :
    {messages others : List (Height × ℤ)}
    → Permᴰ messages others
    → (info : Heights) → handle_messages messages info ≡ handle_messages others info
unfolding handle_messages
perm_same Permᴰ.nil info = refl
perm_same (Permᴰ.cons {b = b} {l₁ = l₁} e p) info =
    ap (λ (m : Height × ℤ). handle_messages l₁ (update_number m.0 m.1 info)) e
    ∙ perm_same p (update_number b.0 b.1 info)
perm_same (Permᴰ.swap {a' = a'} {b' = b'} {l = l} e f) info =
    ap
      (λ (m : (Height × ℤ) × (Height × ℤ)).
        handle_messages l (update_number m.1.0 m.1.1 (update_number m.0.0 m.0.1 info)))
      (λ i. (e i, f i))
    ∙ ap (handle_messages l) (update_number_comm a'.0 b'.0 a'.1 b'.1 info)
perm_same (Permᴰ.trans p q) info = perm_same p info ∙ perm_same q info

Status-discrete : Discrete Status
Status-discrete = hlevel

-- The heights that are reported do not depend on the order in which the messages of the processes
-- arrive, and so neither does the status.
pub handle_messages-Perm :
    (messages others : List (Height × ℤ)) (info : Heights)
    → Perm messages others
    → ((k : Height) → handle_messages messages info k ≡ handle_messages others info k)
      × (status (handle_messages messages info) ≡ status (handle_messages others info))
handle_messages-Perm messages others info p =
    ∥∥₁_elim p (hlevel (ℤ-discrete, Status-discrete))
      (λ q. (λ k. ap (λ (h : Heights). h k) (perm_same q info), ap status (perm_same q info)))
