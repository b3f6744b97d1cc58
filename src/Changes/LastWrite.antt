-- ===== src/Changes/LastWrite.antt =====
-- A tracker without a byte limit refines a simple account of each relationship: the last touch wins,
-- and a delete counts only where nothing was touched at that revision.
use embedspicedb.Common.{
  ℕ, ◌≡◌, refl, List, [], ◌∷◌, Bool, true, false, ◌&&◌, Option, none, some, arith, Option-cases,
  inl, inr, if◌then◌else◌, ◌∙◌, ap, sym,
}
use embedspicedb.Common.Str.{Str, str_eq, str_eq_iff, str_Eq}
use embedspicedb.Common.GoMap
use embedspicedb.Common.GoMap.{lookup-insert, lookup-delete}
use embedspicedb.Changes.{
  Params, UpdateOperation, create, touch, delete, WatchContent, ChangeRecord, Changes,
}
use embedspicedb.Changes.Tracking.{
  Outcome, new_changes, adjust_byte_size, record_for_revision, store, drop_delete, put_touch,
  put_delete, add_relationship_change, apply_operation,
}
use embedspicedb.Changes.Records.{
  lookup-store, record_for_revision-store, record_for_revision-some, record_for_revision-none,
  without_delete,
}

-- What a revision did to a relationship.
pub data Effect (Rel : Type 0) : Type 0 where
  untouched : Effect Rel
  touched deleted : Rel → Effect Rel

pub record RelationshipUpdate (p : Params) : Type 0 where
  pub rev : p.R
  pub relationship : p.Rel
  pub operation : UpdateOperation

-- The account, one operation on one relationship at a time.
abbrev pub next_effect : {Rel : Type 0} → UpdateOperation → Rel → Effect Rel → Effect Rel
next_effect touch rel e = touched rel
next_effect delete rel (touched r) = touched r
next_effect delete rel _ = deleted rel
next_effect create rel e = e

module _ (p : Params) where
  -- An update counts for a key of a revision and a text of a relationship.
  abbrev pub concerns : p.K → Str → RelationshipUpdate p → Bool
  concerns k s u =
      p.key_eq.beq (p.key_func u.rev) k
      && str_eq (p.string_without_caveat_or_expiration u.relationship) s

  pub effect_of : p.K → Str → List (RelationshipUpdate p) → Effect p.Rel → Effect p.Rel
  effect_of k s [] e = e
  effect_of k s (u ∷ us) e =
      effect_of k s us (if concerns k s u then next_effect u.operation u.relationship e else e)

  -- What the tracker holds of a relationship.
  abbrev effect_in : Option p.Rel → Option p.Rel → Effect p.Rel
  effect_in (some r) d = touched r
  effect_in none (some r) = deleted r
  effect_in none none = untouched

  abbrev recorded : Str → ChangeRecord p → Effect p.Rel
  recorded s r = effect_in (GoMap.lookup s r.rel_touches) (GoMap.lookup s r.rel_deletes)

  abbrev recorded? : Str → Option (ChangeRecord p) → Effect p.Rel
  recorded? s none = untouched
  recorded? s (some r) = recorded s r

  pub observed : p.K → Str → Changes p → Effect p.Rel
  observed k s ch = recorded? s (GoMap.lookup ⦃e = p.key_eq⦄ k ch.records)

  unfoldable pub add_all : List (RelationshipUpdate p) → Changes p → Changes p
  add_all [] ch = ch
  add_all (u ∷ us) ch = add_all us (add_relationship_change p u.rev u.relationship u.operation ch).1

  -- The record of a revision shows what is observed under its key.
  recorded-record_for_revision :
      (rev : p.R) (s : Str) (ch : Changes p)
      → recorded s (record_for_revision p rev ch) ≡ observed (p.key_func rev) s ch
  unfolding observed GoMap.lookup
  recorded-record_for_revision rev s ch =
      elim (Option-cases (GoMap.lookup ⦃e = p.key_eq⦄ (p.key_func rev) ch.records)) [
        | inl free ↦
            rw (record_for_revision-none p rev ch free) (sym (ap (λ o. recorded? s o) free))
        | inr (r, held) ↦
            rw (record_for_revision-some p rev r ch held) (sym (ap (λ o. recorded? s o) held))
      ]

  observed-store :
      (rev : p.R) (r : ChangeRecord p) (ch : Changes p) (k : p.K) (s : Str)
      → observed k s (store p rev r ch)
        ≡ (if p.key_eq.beq (p.key_func rev) k then recorded s r else observed k s ch)
  unfolding observed
  observed-store rev r ch k s = ground (arith, lookup-store p rev r ch k)

  adjust_unlimited :
      (size : ℕ) (delta : Bool) (ch : Changes p)
      → ch.max_byte_size ≡ 0
      → adjust_byte_size p size delta ch ≡ (none, ch)
  unfolding adjust_byte_size
  adjust_unlimited size delta ch h = ground arith

  -- The record after a touch has dropped the delete, if there was one.
  abbrev after_drop : Str → ChangeRecord p → Option p.Rel → ChangeRecord p
  after_drop key r none = r
  after_drop key r (some x) = without_delete p key r

  drop_delete_unlimited :
      (rev : p.R) (key : Str) (ch : Changes p)
      → ch.max_byte_size ≡ 0
      → let r = record_for_revision p rev ch in
        drop_delete p rev key ch
        ≡ (none, store p rev (after_drop key r (GoMap.lookup key r.rel_deletes)) ch)
  unfolding drop_delete store
  drop_delete_unlimited rev key ch h =
      let r = record_for_revision p rev ch in
      elim (Option-cases (GoMap.lookup key r.rel_deletes)) [
        | inl gone ↦ rw (gone, drop_delete)
        | inr (x, held) ↦
            rw (held, drop_delete)
              (adjust_unlimited (p.rel_size x) false (store p rev (without_delete p key r) ch) h)
      ]

  recorded-after_drop :
      (key s : Str) (rel : p.Rel) (r : ChangeRecord p)
      → let r' = after_drop key r (GoMap.lookup key r.rel_deletes) in
        recorded s (record r' { rel_touches = GoMap.insert key rel r'.rel_touches })
        ≡ (if str_eq key s then touched rel else recorded s r)
  recorded-after_drop key s rel r =
      ground (arith, lookup-insert key s rel r.rel_touches, lookup-delete key s r.rel_deletes)

  observed-touch :
      (rev : p.R) (rel : p.Rel) (ch : Changes p) (k : p.K) (s : Str)
      → ch.max_byte_size ≡ 0
      → observed k s (apply_operation p rev rel touch ch).1 ≡ (
          if concerns k s (record { rev = rev; relationship = rel; operation = touch })
          then touched rel
          else observed k s ch)
  unfolding put_touch
  observed-touch rev rel ch k s h =
      let key = p.string_without_caveat_or_expiration rel in
      let r = record_for_revision p rev ch in
      let r' = after_drop key r (GoMap.lookup key r.rel_deletes) in
      let ch' = store p rev r' ch in
      rw (drop_delete_unlimited rev key ch h) (
        rw (record_for_revision-store p rev r' ch) (
          rw
            (adjust_unlimited (p.rel_size rel) true
              (store p rev (record r' { rel_touches = GoMap.insert key rel r'.rel_touches }) ch')
              (unfold store in h))
            (ground (
              arith,
              observed-store rev (record r' { rel_touches = GoMap.insert key rel r'.rel_touches })
                  ch' k s,
              observed-store rev r' ch k s,
              recorded-after_drop key s rel r,
              recorded-record_for_revision rev s ch,
              p.key_eq.beq_iff (p.key_func rev) k,
            ))))

  observed-delete :
      (rev : p.R) (rel : p.Rel) (ch : Changes p) (k : p.K) (s : Str)
      → ch.max_byte_size ≡ 0
      → observed k s (apply_operation p rev rel delete ch).1 ≡ (
          if concerns k s (record { rev = rev; relationship = rel; operation = delete })
          then next_effect delete rel (observed k s ch)
          else observed k s ch)
  observed-delete rev rel ch k s h =
      let key = p.string_without_caveat_or_expiration rel in
      let r = record_for_revision p rev ch in
      let r' = record r { rel_deletes = GoMap.insert key rel r.rel_deletes } in
      elim (Option-cases (GoMap.lookup key r.rel_touches)) [
        | inr (x, held) ↦
            unfold put_delete in
            rw (held, put_delete)
              (ground (
                arith,
                observed-store rev r ch k s,
                recorded-record_for_revision rev s ch,
                p.key_eq.beq_iff (p.key_func rev) k,
                str_eq_iff key s,
              ))
        | inl gone ↦
            unfold put_delete in
            rw (gone, put_delete)
              (rw (adjust_unlimited (p.rel_size rel) true (store p rev r' ch) (unfold store in h)) (
                ground (
                  arith,
                  observed-store rev r' ch k s,
                  recorded-record_for_revision rev s ch,
                  lookup-insert key s rel r.rel_deletes,
                  p.key_eq.beq_iff (p.key_func rev) k,
                  str_eq_iff key s,
                )))
      ]

  observed-create :
      (rev : p.R) (rel : p.Rel) (ch : Changes p) (k : p.K) (s : Str)
      → observed k s (apply_operation p rev rel create ch).1 ≡ observed k s ch
  observed-create rev rel ch k s = ground (
    arith,
    observed-store rev (record_for_revision p rev ch) ch k s,
    recorded-record_for_revision rev s ch,
    p.key_eq.beq_iff (p.key_func rev) k,
  )

  -- The tracker follows relationships and has no byte limit.
  pub record IsUnlimited (ch : Changes p) : Type 0 where
    pub no_limit : ch.max_byte_size ≡ 0
    pub watched : ch.content.watch_relationships ≡ true

  add-IsUnlimited :
      (rev : p.R) (rel : p.Rel) (op : UpdateOperation) (ch : Changes p)
      → IsUnlimited ch
      → IsUnlimited (add_relationship_change p rev rel op ch).1
  unfolding add_relationship_change drop_delete put_touch put_delete store adjust_byte_size
  add-IsUnlimited rev rel touch ch h = ground arith
  add-IsUnlimited rev rel delete ch h = ground arith
  add-IsUnlimited rev rel create ch h = ground arith

  observed-apply :
      (rev : p.R) (rel : p.Rel) (op : UpdateOperation) (ch : Changes p) (k : p.K) (s : Str)
      → ch.max_byte_size ≡ 0
      → observed k s (apply_operation p rev rel op ch).1 ≡ (
          if concerns k s (record { rev = rev; relationship = rel; operation = op })
          then next_effect op rel (observed k s ch)
          else observed k s ch)
  observed-apply rev rel touch ch k s h = observed-touch rev rel ch k s h
  observed-apply rev rel delete ch k s h = observed-delete rev rel ch k s h
  observed-apply rev rel create ch k s h = ground (arith, observed-create rev rel ch k s)

  observed-add :
      (u : RelationshipUpdate p) (ch : Changes p) (k : p.K) (s : Str)
      → IsUnlimited ch
      → observed k s (add_relationship_change p u.rev u.relationship u.operation ch).1 ≡ (
          if concerns k s u
          then next_effect u.operation u.relationship (observed k s ch)
          else observed k s ch)
  observed-add u ch k s h =
      let e : add_relationship_change p u.rev u.relationship u.operation ch
          ≡ apply_operation p u.rev u.relationship u.operation ch =
        unfold add_relationship_change in ground arith in
      ap (λ (o : Outcome p). observed k s o.1) e
      ∙ observed-apply u.rev u.relationship u.operation ch k s h.no_limit

  observed-add_all :
      (us : List (RelationshipUpdate p)) (ch : Changes p) (k : p.K) (s : Str)
      → IsUnlimited ch
      → observed k s (add_all us ch) ≡ effect_of k s us (observed k s ch)
  unfolding add_all effect_of
  observed-add_all [] ch k s h = refl
  observed-add_all (u ∷ us) ch k s h =
      observed-add_all us (add_relationship_change p u.rev u.relationship u.operation ch).1 k s
        (add-IsUnlimited u.rev u.relationship u.operation ch h)
      ∙ ap (effect_of k s us) (observed-add u ch k s h)

  -- A new tracker that watches relationships and has no byte limit shows, after any updates, for each
  -- key of a revision and each relationship what the account of those updates gives: the relationship
  -- of the last touch, or without a touch that of the last delete.
  pub add_all_refines :
      (content : WatchContent) (us : List (RelationshipUpdate p)) (k : p.K) (s : Str)
      → content.watch_relationships ≡ true
      → observed k s (add_all us (new_changes p content 0)) ≡ effect_of k s us untouched
  unfolding observed new_changes GoMap.lookup
  add_all_refines content us k s w =
      observed-add_all us (new_changes p content 0) k s (record { no_limit = refl; watched = w })
