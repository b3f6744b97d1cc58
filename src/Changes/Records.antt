-- ===== src/Changes/Records.antt =====
-- What the tracker holds after a write of a record, and that the count of bytes is apart from it.
use embedspicedb.Common.{
  ℕ, ◌≡◌, Bool, false, none, some, arith, Option-cases, inl, inr, if◌then◌else◌,
}
use embedspicedb.Common.Str.{Str, str_Eq}
use embedspicedb.Common.Eq.{beq_refl}
use embedspicedb.Common.GoMap
use embedspicedb.Common.GoMap.{lookup-insert, lookup-delete}
use embedspicedb.Changes.{Params, ChangeRecord, Changes}
use embedspicedb.Changes.Tracking.{
  adjust_byte_size, empty_record, record_for_revision, store, drop_delete, release_existing,
  undelete_namespace, undelete_caveat, definition_size,
}

module _ (p : Params) where
  pub lookup-store :
      (rev : p.R) (r : ChangeRecord p) (ch : Changes p) (k : p.K)
      → GoMap.lookup ⦃e = p.key_eq⦄ k (store p rev r ch).records ≡ (
          if p.key_eq.beq (p.key_func rev) k
          then some r
          else GoMap.lookup ⦃e = p.key_eq⦄ k ch.records)
  unfolding store
  lookup-store rev r ch k = lookup-insert ⦃e = p.key_eq⦄ (p.key_func rev) k r ch.records

  pub record_for_revision-some :
      (rev : p.R) (r : ChangeRecord p) (ch : Changes p)
      → GoMap.lookup ⦃e = p.key_eq⦄ (p.key_func rev) ch.records ≡ some r
      → record_for_revision p rev ch ≡ r
  unfolding record_for_revision
  record_for_revision-some rev r ch h = rw (h, record_for_revision)

  pub record_for_revision-none :
      (rev : p.R) (ch : Changes p)
      → GoMap.lookup ⦃e = p.key_eq⦄ (p.key_func rev) ch.records ≡ none
      → record_for_revision p rev ch ≡ empty_record p rev
  unfolding record_for_revision
  record_for_revision-none rev ch h = rw (h, record_for_revision)

  pub record_for_revision-store :
      (rev : p.R) (r : ChangeRecord p) (ch : Changes p)
      → record_for_revision p rev (store p rev r ch) ≡ r
  record_for_revision-store rev r ch =
      record_for_revision-some rev r (store p rev r ch)
        (ground (arith, lookup-store rev r ch (p.key_func rev), beq_refl p.key_eq (p.key_func rev)))

  pub records-adjust_byte_size :
      (size : ℕ) (delta : Bool) (ch : Changes p)
      → (adjust_byte_size p size delta ch).1.records ≡ ch.records
  unfolding adjust_byte_size
  records-adjust_byte_size size delta ch = ground arith

  pub record_for_revision-records :
      (rev : p.R) (a b : Changes p)
      → a.records ≡ b.records
      → record_for_revision p rev a ≡ record_for_revision p rev b
  unfolding record_for_revision
  record_for_revision-records rev a b h = cc

  pub record_for_revision-adjust :
      (rev : p.R) (size : ℕ) (delta : Bool) (ch : Changes p)
      → record_for_revision p rev (adjust_byte_size p size delta ch).1
        ≡ record_for_revision p rev ch
  record_for_revision-adjust rev size delta ch =
      record_for_revision-records rev (adjust_byte_size p size delta ch).1 ch
        (records-adjust_byte_size size delta ch)

  -- The record once a delete of the key has been dropped.
  abbrev pub without_delete : Str → ChangeRecord p → ChangeRecord p
  without_delete key r = record r { rel_deletes = GoMap.delete key r.rel_deletes }

  pub rel_deletes-drop_delete :
      (rev : p.R) (key : Str) (ch : Changes p)
      → GoMap.lookup key (record_for_revision p rev (drop_delete p rev key ch).1).rel_deletes ≡ none
  unfolding drop_delete
  rel_deletes-drop_delete rev key ch =
      let r = record_for_revision p rev ch in
      elim (Option-cases (GoMap.lookup key r.rel_deletes)) [
        | inl gone ↦ rw (gone, drop_delete) (rw (record_for_revision-store rev r ch) gone)
        | inr (x, held) ↦
            rw (held, drop_delete)
              (rw
                (record_for_revision-adjust rev (p.rel_size x) false
                  (store p rev (without_delete key r) ch))
                (rw (record_for_revision-store rev (without_delete key r) ch)
                  (ground (arith, lookup-delete key key r.rel_deletes, beq_refl str_Eq key))))
      ]

  pub record_for_revision-release :
      (rev : p.R) (key : Str) (ch : Changes p)
      → record_for_revision p rev (release_existing p rev key ch).1 ≡ record_for_revision p rev ch
  unfolding release_existing
  record_for_revision-release rev key ch =
      elim (Option-cases (GoMap.lookup key (record_for_revision p rev ch).definitions_changed)) [
        | inl free ↦ rw (free, release_existing)
        | inr (d, held) ↦
            rw (held, release_existing)
              (record_for_revision-adjust rev (definition_size p d) false ch)
      ]

  pub namespaces_deleted-release :
      (rev : p.R) (name key : Str) (ch : Changes p)
      → GoMap.lookup name
          (record_for_revision p rev
            (release_existing p rev key (undelete_namespace p rev name ch)).1).namespaces_deleted
        ≡ none
  unfolding undelete_namespace
  namespaces_deleted-release rev name key ch =
      let r = record_for_revision p rev ch in
      let r' = record r { namespaces_deleted = GoMap.delete name r.namespaces_deleted } in
      rw (record_for_revision-release rev key (undelete_namespace p rev name ch)) (
        rw (record_for_revision-store rev r' ch)
          (ground (arith, lookup-delete name name r.namespaces_deleted, beq_refl str_Eq name)))

  pub caveats_deleted-release :
      (rev : p.R) (name key : Str) (ch : Changes p)
      → GoMap.lookup name
          (record_for_revision p rev
            (release_existing p rev key (undelete_caveat p rev name ch)).1).caveats_deleted
        ≡ none
  unfolding undelete_caveat
  caveats_deleted-release rev name key ch =
      let r = record_for_revision p rev ch in
      let r' = record r { caveats_deleted = GoMap.delete name r.caveats_deleted } in
      rw (record_for_revision-release rev key (undelete_caveat p rev name ch)) (
        rw (record_for_revision-store rev r' ch)
          (ground (arith, lookup-delete name name r.caveats_deleted, beq_refl str_Eq name)))
