-- ===== src/Rpc/Health.antt =====
-- The sick flag of a daemon against a state machine that counts failures and successes in a row.
use xmrpool.Common.{
  ℕ, ◌+◌, ◌^◌, ◌≤◌, ◌<◌, ◌≡◌, ◌∙◌, Bool, true, false, List, [], ◌∷◌, arith, leb, if◌then◌else◌,
  length,
}
use xmrpool.Common.Ints.{pos}
use xmrpool.Common.Words.{wrap64_inc}
use xmrpool.Common.Texts.{Bytes}
use xmrpool.Rpc.Client.{RpcClient, new_client, mark_sick, mark_alive}

pub data Event : Type 0 where
  failure success : Event

unfoldable pub observe : RpcClient → Event → RpcClient
observe r failure = mark_sick r
observe r success = mark_alive r

unfoldable pub observe_all : RpcClient → List Event → RpcClient
observe_all r [] = r
observe_all r (e ∷ es) = observe_all (observe r e) es

-- The machine: failures since the last recovery, and successes in a row. The fifth success in a row
-- is a recovery, and clears both; the node is sick from the fifth failure on.
pub record Health : Type 0 where
  pub failures : ℕ
  pub streak : ℕ

abbrev pub well : Health
well = record { failures = 0; streak = 0 }

abbrev pub next : Health → Event → Health
next h failure = record { failures = h.failures + 1; streak = 0 }
next h success =
    if leb 5 (h.streak + 1)
    then record { failures = 0; streak = 0 }
    else record h { streak = h.streak + 1 }

unfoldable pub history : Health → List Event → Health
history h [] = h
history h (e ∷ es) = history (next h e) es

abbrev pub is_sick : Health → Bool
is_sick h = leb 5 h.failures

-- The client stands for a state of the machine.
pub record Represents (r : RpcClient) (h : Health) : Type 0 where
  pub rate : r.sick_rate ≡ pos h.failures
  pub streak : r.success_rate ≡ pos h.streak
  pub flag : r.sick ≡ is_sick h
  pub bound : h.streak < 5

pub new_client-Represents : (name : Bytes) → Represents (new_client name) well
unfolding new_client
new_client-Represents name = ground arith

mark_sick-Represents :
    (r : RpcClient) (h : Health)
    → h.failures + 1 < 2 ^ 63
    → Represents r h
    → Represents (mark_sick r) (next h failure)
unfolding mark_sick
mark_sick-Represents r h small rep = ground (arith, wrap64_inc h.failures small)

mark_alive-Represents :
    (r : RpcClient) (h : Health) → Represents r h → Represents (mark_alive r) (next h success)
unfolding mark_alive
mark_alive-Represents r h rep =
    let small : h.streak + 1 < 2 ^ 63 = omega (arith, rep.bound) in
    ground (arith, wrap64_inc h.streak small)

failures-next : (h : Health) (e : Event) → (next h e).failures ≤ h.failures + 1
failures-next h failure = omega arith
failures-next h success = ground arith

pub observe_all-Represents :
    (es : List Event) (r : RpcClient) (h : Health)
    → h.failures + length es < 2 ^ 63
    → Represents r h
    → Represents (observe_all r es) (history h es)
unfolding observe_all history observe
observe_all-Represents [] r h small rep = rep
observe_all-Represents (failure ∷ es) r h small rep =
    observe_all-Represents es (mark_sick r) (next h failure) (omega arith)
      (mark_sick-Represents r h (omega arith) rep)
observe_all-Represents (success ∷ es) r h small rep =
    observe_all-Represents es (mark_alive r) (next h success)
      (omega (arith, failures-next h success)) (mark_alive-Represents r h rep)

-- After any history of less than 2 ^ 63 failures and successes from a new client, the sick flag
-- says whether there were five failures or more since the last run of five successes.
pub observe_all-is_sick :
    (name : Bytes) (es : List Event)
    → length es < 2 ^ 63
    → (observe_all (new_client name) es).sick ≡ is_sick (history well es)
observe_all-is_sick name es small =
    (observe_all-Represents es (new_client name) well (omega arith)
      (new_client-Represents name)).flag

-- From every state that stands for one of the machine, five successes in a row make the client
-- well, and five failures in a row make it sick unless its counter would wrap.
pub five_in_a_row :
    (r : RpcClient) (h : Health)
    → Represents r h
    → h.failures + 5 < 2 ^ 63
    → ((observe_all r (success ∷ success ∷ success ∷ success ∷ success ∷ [])).sick ≡ false)
      × ((observe_all r (failure ∷ failure ∷ failure ∷ failure ∷ failure ∷ [])).sick ≡ true)
five_in_a_row r h rep small = (
  (observe_all-Represents _ r h (omega arith) rep).flag ∙ recovered h rep.bound,
  (observe_all-Represents _ r h (omega arith) rep).flag ∙ fallen h,
)
  where
    recovered :
        (h : Health)
        → h.streak < 5
        → is_sick (history h (success ∷ success ∷ success ∷ success ∷ success ∷ [])) ≡ false
    recovered h b = unfold history in ground arith

    fallen :
        (h : Health)
        → is_sick (history h (failure ∷ failure ∷ failure ∷ failure ∷ failure ∷ [])) ≡ true
    fallen h = unfold history in ground arith
