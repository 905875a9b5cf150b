-- ===== src/Pipeline/Writer/Conserved.antt =====
-- What becomes of the entries that the writer reads, over its whole run.
use mathlib.Core.List.{append-nil, append_assoc, Perm, perm_middle}
use mathlib.Core.List.Perm
use mathlib.Core.Path.{subst}
use halley.Common.{
  ◌≡◌, refl, sym, ap, ◌∙◌, String, Bool, true, false, Option, none, some, List, [], ◌∷◌, ◌++◌,
  is_empty, if◌then◌else◌, ◌||◌, Bool-cases, Option-cases, inl, inr, arith,
}
use halley.Pipeline.Batch.{Host, Entry, Decoded, decode_batch, decode_entry, sort_entry, all_ids}
use halley.Pipeline.Writer.{
  Attempt, Command, Flush, LoopEnd, success, permanent_failure, shut_down, still_retrying, Turn,
  goes_on, process_batch, run,
}
use halley.Pipeline.Writer.Settle.{acked, released, acked-append, process_batch-released}

abbrev pub ids_of : List Entry → List String
ids_of [] = []
ids_of (entry ∷ entries) = entry.id ∷ ids_of entries

-- The decoded entries of a batch that are left where it ends so.
abbrev kept : LoopEnd → List String → List String
kept success ids = []
kept permanent_failure ids = []
kept shut_down ids = ids
kept still_retrying ids = ids

module _ (host : Host) where
  sorted_lem :
      (e : Entry) (o : Option Decoded) (b : List Decoded × List String) (ids : List String)
      → ((d : Decoded) → o ≡ some d → d.id ≡ e.id)
      → Perm (b.1 ++ all_ids b.0) ids
      → let c = sort_entry host e.id o b in Perm (c.1 ++ all_ids c.0) (e.id ∷ ids)
  sorted_lem e none (ds, failed) ids same p = Perm.cons e.id p
  sorted_lem e (some d) (ds, failed) ids same p =
      subst (λ id. Perm (failed ++ d.id ∷ all_ids ds) (id ∷ ids)) (same d refl)
        (Perm.trans (perm_middle failed (all_ids ds)) (Perm.cons d.id p))

  abbrev id_or : String → Option Decoded → String
  id_or id none = id
  id_or id (some d) = d.id

  entry_id : (e : Entry) → id_or e.id (decode_entry host e) ≡ e.id
  unfolding decode_entry
  entry_id e = ground arith

  decoded_id : (e : Entry) (d : Decoded) → decode_entry host e ≡ some d → d.id ≡ e.id
  decoded_id e d eq = sym (ap (id_or e.id) eq) ∙ entry_id e

  decode_batch-Perm :
      (entries : List Entry)
      → let b = decode_batch host entries in Perm (b.1 ++ all_ids b.0) (ids_of entries)
  unfolding decode_batch
  decode_batch-Perm [] = Perm.refl []
  decode_batch-Perm (e ∷ entries) =
      sorted_lem e (decode_entry host e) (decode_batch host entries) (ids_of entries) (decoded_id e)
        (decode_batch-Perm entries)

  batch_kept : List Entry → Flush → List String
  batch_kept entries f = kept f.outcome (all_ids (decode_batch host entries).0)

  kept_lem :
      (outcome : LoopEnd) (ids : List String) → released outcome ids ++ kept outcome ids ≡ ids
  kept_lem success ids = append-nil ids
  kept_lem permanent_failure ids = append-nil ids
  kept_lem shut_down ids = refl
  kept_lem still_retrying ids = refl

  -- Of a batch, each entry is acknowledged once or left, and not both.
  batch-Perm :
      (entries : List Entry) (attempts : List Attempt)
      → let f = process_batch host entries attempts in
        Perm (acked f.commands ++ batch_kept entries f) (ids_of entries)
  unfolding batch_kept
  batch-Perm entries attempts =
      let f = process_batch host entries attempts in
      let (ds, failed) = decode_batch host entries in
      subst (λ ids. Perm ids (ids_of entries))
        (sym (
          ap (λ ids. ids ++ kept f.outcome (all_ids ds))
            (process_batch-released host entries attempts).0
          ∙ append_assoc failed (released f.outcome (all_ids ds)) (kept f.outcome (all_ids ds))
          ∙ ap (λ ids. failed ++ ids) (kept_lem f.outcome (all_ids ds))))
        (decode_batch-Perm entries)

  -- The entries that the writer reads in its run: it reads no more after a batch that a shutdown ends, or
  -- for which no answers are left.
  unfoldable pub read : List Turn → List String
  read [] = []
  read (t ∷ turns) = elim t.shutdown [
    | true ↦ []
    | false ↦ elim t.reply [
      | none ↦ read turns
      | some entries ↦
          let rest = read turns in
          let f = process_batch host entries t.attempts in
          ids_of entries ++ (if is_empty entries || goes_on f.outcome then rest else [])
    ]
  ]

  -- The decoded entries of that batch.
  unfoldable pub left : List Turn → List String
  unfolding batch_kept
  left [] = []
  left (t ∷ turns) = elim t.shutdown [
    | true ↦ []
    | false ↦ elim t.reply [
      | none ↦ left turns
      | some entries ↦
          let rest = left turns in
          let f = process_batch host entries t.attempts in
          if is_empty entries || goes_on f.outcome then rest else batch_kept entries f
    ]
  ]

  going_lem :
      (going : Bool) (cs rest : List Command) (k ids rd lf : List String)
      → Perm (acked cs ++ k) ids
      → (going ≡ true → k ≡ [])
      → Perm (acked rest ++ lf) rd
      → Perm
          (acked (elim going [ true ↦ cs ++ rest | false ↦ cs ]) ++ (if going then lf else k))
          (ids ++ (if going then rd else []))
  going_lem false cs rest k ids rd lf p none_kept q =
      subst (λ l. Perm (acked cs ++ k) l) (sym (append-nil ids)) p
  going_lem true cs rest k ids rd lf p none_kept q =
      subst (λ l. Perm l (ids ++ rd))
        (sym (ap (λ l. l ++ lf) (acked-append cs rest) ∙ append_assoc (acked cs) (acked rest) lf))
        (Perm.append
          (subst (λ l. Perm l ids)
            (ap (λ l. acked cs ++ l) (none_kept refl) ∙ append-nil (acked cs)) p)
          q)

  goes_on-kept :
      (outcome : LoopEnd) (ids : List String) → goes_on outcome ≡ true → kept outcome ids ≡ []
  goes_on-kept success ids e = refl
  goes_on-kept permanent_failure ids e = refl
  goes_on-kept shut_down ids e = cc
  goes_on-kept still_retrying ids e = cc

  some_lem :
      (entries : List Entry) (attempts : List Attempt) (rest : List Command) (rd lf : List String)
      → Perm (acked rest ++ lf) rd
      → let f = process_batch host entries attempts in
        Perm
          (acked (elim (is_empty entries) [
            | true ↦ rest
            | false ↦ elim (goes_on f.outcome) [ true ↦ f.commands ++ rest | false ↦ f.commands ]
          ])
            ++ (if is_empty entries || goes_on f.outcome then lf else batch_kept entries f))
          (ids_of entries ++ (if is_empty entries || goes_on f.outcome then rd else []))
  some_lem [] attempts rest rd lf q = q
  some_lem (e ∷ entries) attempts rest rd lf q =
      let f = process_batch host (e ∷ entries) attempts in
      going_lem (goes_on f.outcome) f.commands rest (batch_kept (e ∷ entries) f)
        (ids_of (e ∷ entries)) rd lf (batch-Perm (e ∷ entries) attempts)
        (unfold batch_kept in goes_on-kept f.outcome (all_ids (decode_batch host (e ∷ entries)).0))
        q

  -- Over a whole run of the writer, whatever is read and however the database answers: the ids
  -- acknowledged, together with those left, are those of the entries read, in some order and each as
  -- often; so that each entry read is acknowledged once, but for the decoded entries of a last batch
  -- which a shutdown or an outage without end does not let it finish.
  pub run-Perm : (turns : List Turn) → Perm (acked (run host turns) ++ left turns) (read turns)
  unfolding run read left
  run-Perm [] = Perm.refl []
  run-Perm (t ∷ turns) = elim (Bool-cases t.shutdown) [
    | inl stop ↦ rw stop (Perm.refl [])
    | inr on ↦ elim (Option-cases t.reply) [
      | inl failed ↦ rw (on, failed) (run-Perm turns)
      | inr (entries, e) ↦
          rw (on, e)
            (some_lem entries t.attempts (run host turns) (read turns) (left turns)
              (run-Perm turns))
    ]
  ]
