-- ===== src/Pipeline/Writer/Settle.antt =====
-- What becomes of the entries of a batch.
use halley.Common.{
  ℕ, ◌+◌, ◌≡◌, refl, ap, sym, ◌∙◌, String, List, [], ◌∷◌, ◌++◌, map, arith, is_empty, if◌then◌else◌,
}
use mathlib.Core.List.{append-nil, append_assoc}
use halley.External.{External}
use halley.Domain.Rows.{ObservationRow, BodyRow}
use halley.Pipeline.Batch.{Host, Entry, Decoded, decode_batch, all_ids, all_obs, all_bodies, dedup}
use halley.Pipeline.Writer.{
  Attempt, Flush, LoopEnd, success, permanent_failure, shut_down, still_retrying, insert_loop,
  Command, dead_letter, ack, insert_bodies, insert_observations, publish, sleep, dead_letter_failed,
  dead_letter_batch, live_message, settle, process_batch,
}

-- The ids acknowledged, and those written to the dead-letter queue with their reasons.
abbrev pub acked : List Command → List String
acked [] = []
acked (ack ids ∷ cs) = ids ++ acked cs
acked (_ ∷ cs) = acked cs

abbrev pub lettered : List Command → List (String × String)
lettered [] = []
lettered (dead_letter id reason ∷ cs) = (id, reason) ∷ lettered cs
lettered (_ ∷ cs) = lettered cs

abbrev pub with_reason : String → List String → List (String × String)
with_reason reason [] = []
with_reason reason (id ∷ ids) = (id, reason) ∷ with_reason reason ids

-- The ids that leave the pending list beside the undecodable ones, and those of them that are
-- written to the dead-letter queue.
abbrev pub released : LoopEnd → List String → List String
released success ids = ids
released permanent_failure ids = ids
released _ ids = []

abbrev pub rejected : LoopEnd → List String → List String
rejected permanent_failure ids = ids
rejected _ ids = []

pub acked-append : (cs ds : List Command) → acked (cs ++ ds) ≡ acked cs ++ acked ds
acked-append [] ds = refl
acked-append (ack ids ∷ cs) ds =
    ap (λ l. ids ++ l) (acked-append cs ds) ∙ sym (append_assoc ids (acked cs) (acked ds))
acked-append (dead_letter id r ∷ cs) ds = acked-append cs ds
acked-append (insert_bodies b ∷ cs) ds = acked-append cs ds
acked-append (insert_observations r ∷ cs) ds = acked-append cs ds
acked-append (publish c p ∷ cs) ds = acked-append cs ds
acked-append (sleep n ∷ cs) ds = acked-append cs ds

lettered-append : (cs ds : List Command) → lettered (cs ++ ds) ≡ lettered cs ++ lettered ds
lettered-append [] ds = refl
lettered-append (dead_letter id r ∷ cs) ds = ap (λ l. (id, r) ∷ l) (lettered-append cs ds)
lettered-append (ack ids ∷ cs) ds = lettered-append cs ds
lettered-append (insert_bodies b ∷ cs) ds = lettered-append cs ds
lettered-append (insert_observations r ∷ cs) ds = lettered-append cs ds
lettered-append (publish c p ∷ cs) ds = lettered-append cs ds
lettered-append (sleep n ∷ cs) ds = lettered-append cs ds

failed_lem :
    (ids : List String)
    → (acked (dead_letter_failed ids) ≡ ids)
      × (lettered (dead_letter_failed ids) ≡ with_reason "decode_error" ids)
unfolding dead_letter_failed
failed_lem [] = (refl, refl)
failed_lem (id ∷ ids) =
    (ap (λ l. id ∷ l) (failed_lem ids).0, ap (λ l. (id, "decode_error") ∷ l) (failed_lem ids).1)

live_lem :
    (ext : External) (rows : List ObservationRow) (rest : List Command)
    → (acked (map (live_message ext) rows ++ rest) ≡ acked rest)
      × (lettered (map (live_message ext) rows ++ rest) ≡ lettered rest)
unfolding live_message
live_lem ext [] rest = (refl, refl)
live_lem ext (r ∷ rows) rest = live_lem ext rows rest

batch_lem :
    (ids : List String) (rest : List Command)
    → (acked (dead_letter_batch ids ++ rest) ≡ acked rest)
      × (lettered (dead_letter_batch ids ++ rest) ≡ with_reason "insert_error" ids ++ lettered rest)
unfolding dead_letter_batch
batch_lem [] rest = (refl, refl)
batch_lem (id ∷ ids) rest =
    ((batch_lem ids rest).0, ap (λ l. (id, "insert_error") ∷ l) (batch_lem ids rest).1)

loop_lem :
    (host : Host) (bodies : List BodyRow) (rows : List ObservationRow) (n : ℕ)
    (attempts : List Attempt)
    → (acked (insert_loop host bodies rows n attempts).commands ≡ [])
      × (lettered (insert_loop host bodies rows n attempts).commands ≡ [])
unfolding insert_loop
loop_lem host bodies rows n [] = (refl, refl)
loop_lem host bodies rows n (a ∷ attempts) =
    ground (arith, loop_lem host bodies rows n attempts, loop_lem host bodies rows (n + 1) attempts)

settle_lem :
    (ext : External) (ds : List Decoded) (o : LoopEnd)
    → (acked (settle ext ds o) ≡ released o (all_ids ds))
      × (lettered (settle ext ds o) ≡ with_reason "insert_error" (rejected o (all_ids ds)))
unfolding settle
settle_lem ext ds success =
    let live = live_lem ext (all_obs ds) (ack (all_ids ds) ∷ []) in
    (live.0 ∙ append-nil (all_ids ds), live.1)
settle_lem ext ds permanent_failure =
    let batch = batch_lem (all_ids ds) (ack (all_ids ds) ∷ []) in
    (
      batch.0 ∙ append-nil (all_ids ds),
      batch.1 ∙ append-nil (with_reason "insert_error" (all_ids ds)),
    )
settle_lem ext ds shut_down = (refl, refl)
settle_lem ext ds still_retrying = (refl, refl)

settled_lem :
    (ext : External) (ds : List Decoded) (failed : List String) (f : Flush)
    → acked f.commands ≡ []
    → lettered f.commands ≡ []
    → let cs = dead_letter_failed failed ++ (f.commands ++ settle ext ds f.outcome) in
      (acked cs ≡ failed ++ released f.outcome (all_ids ds))
      × (lettered cs
          ≡ with_reason "decode_error" failed
            ++ with_reason "insert_error" (rejected f.outcome (all_ids ds)))
settled_lem ext ds failed f a l = (
  simp (acked-append, (failed_lem failed).0, a, (settle_lem ext ds f.outcome).0) refl,
  simp (lettered-append, (failed_lem failed).1, l, (settle_lem ext ds f.outcome).1) refl,
)

flow_lem :
    (ext : External) (ds : List Decoded) (failed : List String) (f : Flush)
    → acked f.commands ≡ []
    → lettered f.commands ≡ []
    → let letters = dead_letter_failed failed in
      let g : Flush =
        if is_empty ds then record { outcome = success; commands = letters } else record {
          outcome = f.outcome;
          commands = letters ++ (f.commands ++ settle ext ds f.outcome);
        } in
      (acked g.commands ≡ failed ++ released g.outcome (all_ids ds))
      × (lettered g.commands
          ≡ with_reason "decode_error" failed
            ++ with_reason "insert_error" (rejected g.outcome (all_ids ds)))
flow_lem ext [] failed f a l =
    ((failed_lem failed).0 ∙ sym (append-nil _), (failed_lem failed).1 ∙ sym (append-nil _))
flow_lem ext (d ∷ ds) failed f a l = settled_lem ext (d ∷ ds) failed f a l

-- Of a batch, with the outcome of its insert loop: the ids of the entries that cannot be decoded are
-- acknowledged and written to the dead-letter queue with the reason "decode_error", whatever the
-- outcome. The ids of the decoded entries are acknowledged after those exactly in
-- success and in permanent failure, and written to the dead-letter queue, with the reason
-- "insert_error", exactly in permanent failure: when the batch is left by a shutdown, every decoded
-- entry stays pending.
pub process_batch-released :
    (host : Host) (entries : List Entry) (attempts : List Attempt)
    → let f = process_batch host entries attempts in
      let (decoded, failed) = decode_batch host entries in
      (acked f.commands ≡ failed ++ released f.outcome (all_ids decoded))
      × (lettered f.commands
          ≡ with_reason "decode_error" failed
            ++ with_reason "insert_error" (rejected f.outcome (all_ids decoded)))
unfolding process_batch
process_batch-released host entries attempts =
    let (decoded, failed) = decode_batch host entries in
    let bodies = dedup [] (all_bodies decoded) in
    let none_acked = loop_lem host bodies (all_obs decoded) 0 attempts in
    flow_lem host.ext decoded failed (insert_loop host bodies (all_obs decoded) 0 attempts)
      none_acked.0 none_acked.1
