-- ===== src/Stratum/Refresh/Fetch.antt =====
-- Which templates fetchBlockTemplate of stratum/blocks.go installs.
use xmrpool.Common.{
  suc, if◌then◌else◌, ◌≡◌, ◌≢◌, refl, ap, ◌∙◌, length, ◌==◌, [], ◌∷◌, Bool, true, false, Option,
  none, some, arith, Bool-cases, Option-cases, inl, inr,
}
use mathlib.Core.Path.{subst}
use xmrpool.Common.Ints.{ℤ, ltb_ℤ, ◌≤ℤ◌, ◌<ℤ◌}
use xmrpool.Common.Words.{wrap64}
use xmrpool.Common.Texts.{Bytes, hex_prefix, bytes_eq, bytes_eq_iff}
use xmrpool.Blocktemplate.Wire.{Error, Result, ok, err, panicked as unpack_panicked}
use xmrpool.Blocktemplate.Block.{BlockTemplateBlob, unpack_template_blob}
use xmrpool.Rpc.Client.{
  RpcClient, GetBlockTemplateReply, CallError, CallResult, done, failed, panicked,
  get_block_template,
}
use xmrpool.Stratum.Upstreams.{rpc}
use xmrpool.Stratum.Types.{BlockTemplate, Env, World, returned, crashed}
use xmrpool.Stratum.Runs.{found-returned}
use xmrpool.Stratum.Refresh.{
  set_nth, is_new_template, zero_blob, first_amount, template_of, checked_template, store_template,
  install_unpacked, install, on_reply, fetch_block_template,
}

-- Whether a reply announces another block than the current template: its previous hash is another one, or
-- both have none and it is for a greater height.
pub data IsNew (reply : GetBlockTemplateReply) : Option BlockTemplate → Type 0 where
  first : IsNew reply none
  other_block : (t : BlockTemplate) → t.prev_hash ≢ reply.prev_hash → IsNew reply (some t)
  higher :
      (t : BlockTemplate)
      → t.prev_hash ≡ []
      → reply.prev_hash ≡ []
      → t.height <ℤ reply.height
      → IsNew reply (some t)

pub data IsOld (reply : GetBlockTemplateReply) : Option BlockTemplate → Type 0 where
  same_block :
      (t : BlockTemplate)
      → t.prev_hash ≡ reply.prev_hash
      → reply.prev_hash ≢ []
      → IsOld reply (some t)
  not_higher :
      (t : BlockTemplate)
      → t.prev_hash ≡ reply.prev_hash
      → reply.height ≤ℤ t.height
      → IsOld reply (some t)

-- What a reply has to be for its template to be installed.
pub record Acceptable (env : Env) (before : Option BlockTemplate) (reply : GetBlockTemplateReply)
    (t : BlockTemplate) : Type 0 where
  pub blob : BlockTemplateBlob
  pub rest : Bytes
  pub reward : ℤ
  pub unpacked :
      unpack_template_blob env.utility zero_blob (hex_prefix reply.blob) ≡ ok (blob, rest)
  pub first_output : first_amount blob.block.miner_tx.vout ≡ some reward
  pub affordable : reward ≤ℤ reply.expected_reward
  pub made : t ≡ template_of reply reward
  pub new : IsNew reply before

-- Why the outcome of a call gives no new template.
pub data Refused (env : Env) (before : Option BlockTemplate)
    : CallResult (Option GetBlockTemplateReply) → Type 0 where
  no_reply : (e : CallError) → Refused env before (failed e)
  old :
      (reply : GetBlockTemplateReply) → IsOld reply before → Refused env before (done (some reply))
  malformed :
      (reply : GetBlockTemplateReply) (e : Error)
      → unpack_template_blob env.utility zero_blob (hex_prefix reply.blob) ≡ err e
      → Refused env before (done (some reply))
  no_output :
      (reply : GetBlockTemplateReply) (blob : BlockTemplateBlob) (rest : Bytes)
      → unpack_template_blob env.utility zero_blob (hex_prefix reply.blob) ≡ ok (blob, rest)
      → first_amount blob.block.miner_tx.vout ≡ none
      → Refused env before (done (some reply))
  unaffordable :
      (reply : GetBlockTemplateReply) (blob : BlockTemplateBlob) (rest : Bytes) (reward : ℤ)
      → unpack_template_blob env.utility zero_blob (hex_prefix reply.blob) ≡ ok (blob, rest)
      → first_amount blob.block.miner_tx.vout ≡ some reward
      → reply.expected_reward <ℤ reward
      → Refused env before (done (some reply))

-- The answer, and the state after it, by the outcome of the call.
pub data Installs (env : Env) (w : World) (result : CallResult (Option GetBlockTemplateReply))
    : World → Bool → Type 0 where
  kept : Refused env w.block_template result → Installs env w result w false
  renewed :
      (reply : GetBlockTemplateReply) (t : BlockTemplate)
      → result ≡ done (some reply)
      → Acceptable env w.block_template reply t
      → Installs env w result (record w { block_template = some t }) true

-- The state after a call of the client in use, which left it as `client`.
abbrev pub called_state : World → RpcClient → World
called_state w client = record w {
  ticks = suc w.ticks;
  upstreams = record (w.upstreams) {
    upstreams = set_nth w.upstreams.upstream client w.upstreams.upstreams;
  };
}

-- What a fetch that answers b did: a call of the client in use, and what comes of its outcome.
pub record Fetched (env : Env) (w w' : World) (b : Bool) : Type 0 where
  pub client : RpcClient
  pub after : RpcClient
  pub result : CallResult (Option GetBlockTemplateReply)
  pub in_use : rpc w.upstreams ≡ some client
  pub called :
      get_block_template
        (λ (raw : Option GetBlockTemplateReply). raw)
        client
        (env.template_answer w.ticks)
      ≡ (after, result)
  pub installs : Installs env (called_state w after) result w' b

same_world :
    {A : Type 0} {a b : A} {w w' : World} → returned a w ≡ returned b w' → (a ≡ b) × (w ≡ w')
same_world e = (cc e, cc e)

crash_not_returned : {A : Type 0} {a : A} {w : World} → crashed ≡ returned a w → ⊥
crash_not_returned e = cc e

-- The same outcome in a state and an answer that are equal.
same_outcome :
    {env : Env} {result : CallResult (Option GetBlockTemplateReply)} {a b : Bool} (w u w' : World)
    → returned a u ≡ returned b w'
    → Installs env w result u a
    → Installs env w result w' b
same_outcome {env} {result} {a} {b} w u w' e h =
    let (is_b, is_w) = same_world e in
    subst (λ (x : World). Installs env w result x b) is_w
      (subst (λ (x : Bool). Installs env w result u x) is_b h)

no_bytes : (s : Bytes) → (length s == 0) ≡ true → s ≡ []
no_bytes [] h = refl
no_bytes (c ∷ s) h = absurd (ground arith)

is_new_template-IsNew :
    (before : Option BlockTemplate) (reply : GetBlockTemplateReply)
    → is_new_template before reply ≡ true
    → IsNew reply before
unfolding is_new_template
is_new_template-IsNew none reply h = first
is_new_template-IsNew (some t) reply h = elim (Bool-cases (bytes_eq t.prev_hash reply.prev_hash)) [
  | inl same ↦
      (let is_same = (bytes_eq_iff t.prev_hash reply.prev_hash).0 same in
        let none_known = no_bytes reply.prev_hash (ground (arith, h, same)) in
        higher t (is_same ∙ none_known) none_known (ground (arith, h, same)))
  | inr other ↦
      other_block t (λ e. let wrong = (bytes_eq_iff t.prev_hash reply.prev_hash).1 e in cc)
]

is_new_template-IsOld :
    (before : Option BlockTemplate) (reply : GetBlockTemplateReply)
    → is_new_template before reply ≡ false
    → IsOld reply before
unfolding is_new_template
is_new_template-IsOld none reply h = cc
is_new_template-IsOld (some t) reply h =
    let same : bytes_eq t.prev_hash reply.prev_hash ≡ true = ground (arith, h) in
    let is_same = (bytes_eq_iff t.prev_hash reply.prev_hash).0 same in
    elim (Bool-cases (length reply.prev_hash == 0)) [
      | inl empty ↦ not_higher t is_same (ground (arith, h, same, empty))
      | inr some_hash ↦
          same_block t is_same
            (λ e. let wrong : length reply.prev_hash ≡ 0 = ap length e in absurd (ground arith))
    ]

-- What the checks on the unpacked blob come to.
module _ (reply : GetBlockTemplateReply) (blob : BlockTemplateBlob) where
  checked-missing :
      first_amount blob.block.miner_tx.vout ≡ none → checked_template reply blob ≡ none
  unfolding checked_template
  checked-missing missing = rw (checked_template, missing) refl

  checked-reward :
      (reward : ℤ) (more : Bool)
      → first_amount blob.block.miner_tx.vout ≡ some reward
      → ltb_ℤ reply.expected_reward reward ≡ more
      → checked_template reply blob ≡ (if more then none else some (template_of reply reward))
  unfolding checked_template hex_prefix wrap64
  checked-reward reward more is e = rw (checked_template, is, e) refl

checked_template-Installs :
    (env : Env) (w : World) (reply : GetBlockTemplateReply) (blob : BlockTemplateBlob)
    (rest : Bytes) (w' : World) (b : Bool)
    → IsNew reply w.block_template
    → unpack_template_blob env.utility zero_blob (hex_prefix reply.blob) ≡ ok (blob, rest)
    → store_template (checked_template reply blob) w ≡ returned b w'
    → Installs env w (done (some reply)) w' b
unfolding store_template
checked_template-Installs env w reply blob rest w' b new unpacked h =
    elim (Option-cases (first_amount blob.block.miner_tx.vout)) [
      | inl missing ↦
          same_outcome w w w' (rw (checked-missing reply blob missing) at h)
            (kept (no_output reply blob rest unpacked missing))
      | inr (reward, is) ↦ elim (Bool-cases (ltb_ℤ reply.expected_reward reward)) [
        | inl more ↦
            same_outcome w w w' (rw (checked-reward reply blob reward true is more) at h)
              (kept (unaffordable reply blob rest reward unpacked is (ground (arith, more))))
        | inr fine ↦
            same_outcome w (record w { block_template = some (template_of reply reward) }) w'
              (rw (checked-reward reply blob reward false is fine) at h)
              (renewed reply (template_of reply reward) refl (record {
                blob = blob;
                rest = rest;
                reward = reward;
                unpacked = unpacked;
                first_output = is;
                affordable = ground (arith, fine);
                made = refl;
                new = new;
              }))
      ]
    ]

install_unpacked-Installs :
    (env : Env) (reply : GetBlockTemplateReply) (u : Result (BlockTemplateBlob × Bytes))
    (w w' : World) (b : Bool)
    → IsNew reply w.block_template
    → unpack_template_blob env.utility zero_blob (hex_prefix reply.blob) ≡ u
    → install_unpacked reply u w ≡ returned b w'
    → Installs env w (done (some reply)) w' b
install_unpacked-Installs env reply (err x) w w' b new is_u h =
    same_outcome w w w' h (kept (malformed reply x is_u))
install_unpacked-Installs env reply unpack_panicked w w' b new is_u h =
    absurd (crash_not_returned h)
install_unpacked-Installs env reply (ok (blob, rest)) w w' b new is_u h =
    checked_template-Installs env w reply blob rest w' b new is_u h

on_reply-Installs :
    (env : Env) (result : CallResult (Option GetBlockTemplateReply)) (w w' : World) (b : Bool)
    → on_reply env result w ≡ returned b w'
    → Installs env w result w' b
unfolding install
on_reply-Installs env (failed x) w w' b h = same_outcome w w w' h (kept (no_reply x))
on_reply-Installs env panicked w w' b h = absurd (crash_not_returned h)
on_reply-Installs env (done none) w w' b h = absurd (crash_not_returned h)
on_reply-Installs env (done (some reply)) w w' b h =
    elim (Bool-cases (is_new_template w.block_template reply)) [
      | inl new ↦
          install_unpacked-Installs env reply _ w w' b
            (is_new_template-IsNew w.block_template reply new) refl (rw new at h)
      | inr stale ↦
          same_outcome w w w' (rw stale at h)
            (kept (old reply (is_new_template-IsOld w.block_template reply stale)))
    ]

-- A fetch that returns, from any state, calls the daemon in use once, which may change that client's
-- health. It answers `true` exactly if the reply announces a new block, its blob unpacks, the coinbase has
-- an output, and the expected reward is at least the amount of that output; then the template made of the
-- reply is installed, with that amount as its block reward and the rest of the expected reward as its
-- fee. Else it answers `false`, for one of these reasons or an error of the call, and keeps the template.
-- But for the template, the client and the clock the state stays as it was.
pub fetch_block_template-Fetched :
    (env : Env) (w w' : World) (b : Bool)
    → fetch_block_template env w ≡ returned b w'
    → Fetched env w w' b
unfolding fetch_block_template
fetch_block_template-Fetched env w w' b h =
    let (client, in_use, h1) = found-returned (rpc w.upstreams) _ w b w' h in
    let call =
      get_block_template (λ (raw : Option GetBlockTemplateReply). raw) client
        (env.template_answer w.ticks) in
    record {
      client = client;
      after = call.0;
      result = call.1;
      in_use = in_use;
      called = refl;
      installs = on_reply-Installs env call.1 (called_state w call.0) w' b h1;
    }
