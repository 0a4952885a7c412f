-- ===== src/Storage/Tests.antt =====
-- A server that keeps the commands of its transactions, and runs on it.
mod Parts
mod Sweeps
mod Nodes
use xmrpool.Common.{
  ℕ, ◌≡◌, ◌||◌, refl, Bool, true, false, Option, none, some, List, [], ◌∷◌, ◌++◌, arith,
}
use xmrpool.Common.Ints.{pos, negsuc}
use xmrpool.Common.Texts.{Bytes, codes}
use xmrpool.Storage.Types.{Outcome, returned, BlockData, zero_block, key}
use xmrpool.Storage.Redis.{
  Redis, Sums, Command, h_get_all_map, Reply, int_reply, hash_reply, page_reply, net, done,
}
use xmrpool.Storage.Payments.{update_balance}
use xmrpool.Storage.Shares.{candidate_row}
use xmrpool.Storage.Blocks.{
  Credits, read_log, write_matured_block, write_matured, matured_queue, parsed, total64,
  credit_commands, debit_commands, matured_commands,
}
use xmrpool.Storage.Rows.{convert_candidate, convert_block}
use xmrpool.Storage.RoundTrips.{
  convert_candidate-candidate_row, convert_block-key, candidate_of, stored_block,
}
use xmrpool.Storage.Payees.{
  Iteration, Logins, login_of, scan_loop, add_members, is_in, scan_loop-Iteration,
}
use xmrpool.Storage.Books.{net-append}
use xmrpool.Storage.Ledger.{IsBooked}
use xmrpool.Storage.Ledger.Steps.{Step, Steps, steps-IsBooked}

abbrev answer : Command → Reply
answer (h_get_all_map key) = hash_reply ((codes "wallet", codes "7") ∷ [])
answer _ = int_reply (pos 1)

abbrev server : Redis
server = record {
  Db = List Command;
  run = λ c db. (some (answer c), db);
  exec = λ cs db. (some [], db ++ cs);
}

abbrev sums : Sums server
sums = record {
  total = λ at field db. net at field db;
  added = λ at field cs db kept ok. net-append at field db cs;
  kept = λ at field c db kept still. refl;
}

abbrev prefix : Bytes
prefix = codes "xmr"

abbrev login : Bytes
login = codes "wallet"

abbrev block : BlockData
block = record zero_block {
  height = pos 5;
  round_height = pos 5;
  nonce = codes "0badf00d";
  hash = codes "c0ffee";
  timestamp = pos 9;
  coin_base_value = some (pos 30);
  reward = some (pos 30);
}

abbrev after_update : List Command
after_update = (update_balance server prefix (pos 5000) login (pos 4) []).1

abbrev after_matured : List Command
after_matured =
    (write_matured_block server prefix (pos 6000) block ((login, pos 30) ∷ []) after_update).1

update_step : Step server prefix [] after_update
unfolding update_balance done
update_step = Step.update (pos 5000) login (pos 4) [] _ refl

matured_step : Step server prefix after_update after_matured
unfolding write_matured_block xmrpool.Storage.Blocks.write_matured xmrpool.Storage.Types.reply_of
    done read_log parsed xmrpool.Common.Numbers.parse_int xmrpool.Common.Numbers.scan
matured_step =
    Step.matured_block (pos 6000) block ((login, pos 30) ∷ []) ((codes "wallet", codes "7") ∷ [])
      after_update _ _ ((refl, _), omega arith) refl ((refl, _), omega arith) refl

two_steps : Steps server prefix [] after_matured
two_steps = Steps.next _ _ _ update_step (Steps.next _ _ _ matured_step (Steps.stop _))

nothing-IsBooked : IsBooked server sums prefix []
unfolding IsBooked net
nothing-IsBooked a = refl

steps-IsBooked_example : IsBooked server sums prefix after_matured
steps-IsBooked_example =
    steps-IsBooked server sums prefix [] after_matured two_steps nothing-IsBooked

convert_candidate-candidate_row_example :
    convert_candidate (
      pos 5,
      candidate_row
          (codes "0badf00d" ∷ codes "01" ∷ codes "02" ∷ [])
          (pos 9)
          (pos 100)
          (pos 60)
          (pos 30)
          (negsuc 1),
    )
    ≡ some (
        candidate_of
          (pos 5)
          (codes "0badf00d")
          (codes "01")
          (codes "02")
          (pos 9)
          (pos 100)
          (pos 60)
          (pos 30)
          (negsuc 1)
          (candidate_row
            (codes "0badf00d" ∷ codes "01" ∷ codes "02" ∷ [])
            (pos 9)
            (pos 100)
            (pos 60)
            (pos 30)
            (negsuc 1)))
convert_candidate-candidate_row_example =
    convert_candidate-candidate_row (pos 5) (codes "0badf00d") (codes "01") (codes "02") (pos 9)
      (pos 100) (pos 60) (pos 30) (negsuc 1)
      (
        (refl, (refl, (refl, (refl, (refl, (refl, (refl, (refl, _)))))))),
        ((refl, (refl, _)), ((refl, (refl, _)), _)),
      )
      (omega arith)

convert_block-key_example : convert_block (pos 5, key block) ≡ some (stored_block (pos 5) block)
convert_block-key_example =
    convert_block-key (pos 5) block
      (refl, (refl, (refl, (refl, (refl, (refl, (refl, (refl, _))))))))
      (unfold xmrpool.Storage.Types.serialize_hash in
        (refl, (refl, (refl, (refl, (refl, (refl, _)))))))
      (omega arith)

-- A server with one page of keys.
abbrev page_server : Redis
page_server = record {
  Db = Unit;
  run = λ c db. (some (page_reply (pos 0) (codes "xmr:miners:wallet" ∷ [])), db);
  exec = λ cs db. (none, db);
}

one_login_row : Logins (codes "xmr:miners:wallet" ∷ []) (login ∷ [])
unfolding login_of xmrpool.Common.Strings.split
one_login_row = Logins.one_login _ login [] [] refl Logins.none_left

scan_loop-Iteration_example :
    (scan_loop page_server prefix 3 (pos 0) [] _
      ≡ (some (returned (add_members (login ∷ []) [])), _))
    × ((x : Bytes) → is_in x (add_members (login ∷ []) []) ≡ (is_in x (login ∷ []) || is_in x []))
scan_loop-Iteration_example =
    scan_loop-Iteration page_server prefix 1 3 (pos 0) (login ∷ []) [] _ _
      (Iteration.last_page (pos 0) (pos 0) _ (codes "xmr:miners:wallet" ∷ []) (login ∷ []) refl
        one_login_row refl)
      (omega arith)
