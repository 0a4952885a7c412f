-- ===== src/Rpc/Tests.antt =====
-- The theorems about the daemon client at concrete inputs.
use xmrpool.Common.{◌≡◌, true, false, Option, [], ◌∷◌, ◌++◌, arith, replicate}
use xmrpool.Common.Texts.{codes}
use xmrpool.Rpc.Client.{GetBlockTemplateReply, new_client, check, response, malformed}
use xmrpool.Rpc.Health.{
  failure, success, observe_all, history, well, is_sick, new_client-Represents, observe_all-is_sick,
  five_in_a_row,
}
use xmrpool.Rpc.Calls.{Leaves, check-Leaves}

-- Seven failures, and then three successes.
observe_all-is_sick_example :
    (observe_all (new_client (codes "node")) (replicate 7 failure ++ replicate 3 success)).sick
    ≡ is_sick (history well (replicate 7 failure ++ replicate 3 success))
observe_all-is_sick_example =
    observe_all-is_sick (codes "node") (replicate 7 failure ++ replicate 3 success) (omega arith)

five_in_a_row_example :
    ((observe_all
        (new_client (codes "node"))
        (success ∷ success ∷ success ∷ success ∷ success ∷ [])).sick
      ≡ false)
    × ((observe_all
          (new_client (codes "node"))
          (failure ∷ failure ∷ failure ∷ failure ∷ failure ∷ [])).sick
        ≡ true)
five_in_a_row_example =
    five_in_a_row (new_client (codes "node")) well (new_client-Represents (codes "node"))
      (omega arith)

abbrev raw : Option GetBlockTemplateReply → Option GetBlockTemplateReply
raw r = r

-- A status that is refused, whatever the body.
check-Leaves_example :
    Leaves raw
      (new_client (codes "node"))
      (response 500 malformed)
      (check raw (new_client (codes "node")) (response 500 malformed))
check-Leaves_example = check-Leaves raw (new_client (codes "node")) (response 500 malformed)
