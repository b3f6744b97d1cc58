-- ===== src/Changes/Consistent.antt =====
-- The invariant of the tracker, which every method keeps, also where it fails.
use embedspicedb.Common.{
  ◌≡◌, refl, ◌++◌, Bool, true, none, some, is_some, arith, Option-cases, inl, inr, Bool-cases, sym,
  ◌∙◌, ℕ,
}
use mathlib.Core.Path.{subst}
use embedspicedb.Common.Str.{Str, str_eq_iff, str_Eq}
use embedspicedb.Common.GoMap
use embedspicedb.Common.GoMap.{GoMap, lookup-insert, lookup-delete}
use embedspicedb.Common.GoMap.Distinct.{Distinct, Distinct-insert}
use embedspicedb.Changes.{Params, ChangeRecord, Changes}
use embedspicedb.Changes.Records.{
  lookup-store, record_for_revision-some, record_for_revision-none, records-adjust_byte_size,
  without_delete,
}
use embedspicedb.Changes.Tracking.{
  ns_prefix, caveat_prefix, adjust_byte_size, empty_record, record_for_revision, store,
}

module _ (p : Params) where
  -- No relationship is touched and deleted at one revision, no namespace or caveat changed and
  -- deleted, and a relationship stands under its own text.
  pub record IsConsistentRecord (r : ChangeRecord p) : Type 0 where
    pub one_effect :
        (k : Str)
        → is_some (GoMap.lookup k r.rel_touches) ≡ true
        → GoMap.lookup k r.rel_deletes ≡ none
    pub touch_key :
        (k : Str) (x : p.Rel)
        → GoMap.lookup k r.rel_touches ≡ some x
        → p.string_without_caveat_or_expiration x ≡ k
    pub delete_key :
        (k : Str) (x : p.Rel)
        → GoMap.lookup k r.rel_deletes ≡ some x
        → p.string_without_caveat_or_expiration x ≡ k
    pub namespace_effect :
        (n : Str)
        → is_some (GoMap.lookup (ns_prefix ++ n) r.definitions_changed) ≡ true
        → GoMap.lookup n r.namespaces_deleted ≡ none
    pub caveat_effect :
        (n : Str)
        → is_some (GoMap.lookup (caveat_prefix ++ n) r.definitions_changed) ≡ true
        → GoMap.lookup n r.caveats_deleted ≡ none

  -- Each record of the tracker is consistent, and stands under the key of its revision.
  pub record IsConsistent (ch : Changes p) : Type 0 where
    pub distinct : Distinct ⦃e = p.key_eq⦄ ch.records
    pub at :
        (k : p.K) (r : ChangeRecord p)
        → GoMap.lookup ⦃e = p.key_eq⦄ k ch.records ≡ some r
        → IsConsistentRecord r × (p.key_func r.rev ≡ k)

  abbrev pub Fits : p.R → ChangeRecord p → Type 0
  Fits rev r = IsConsistentRecord r × (p.key_func r.rev ≡ p.key_func rev)

  empty_record-Fits : (rev : p.R) → Fits rev (empty_record p rev)
  unfolding GoMap.lookup
  empty_record-Fits rev = (
    record {
      one_effect = λ k e. refl;
      touch_key = λ k x e. cc;
      delete_key = λ k x e. cc;
      namespace_effect = λ n e. refl;
      caveat_effect = λ n e. refl;
    },
    refl,
  )

  pub record_for_revision-Fits :
      (rev : p.R) (ch : Changes p) → IsConsistent ch → Fits rev (record_for_revision p rev ch)
  record_for_revision-Fits rev ch h =
      elim (Option-cases (GoMap.lookup ⦃e = p.key_eq⦄ (p.key_func rev) ch.records)) [
        | inl new ↦
            subst (Fits rev) (sym (record_for_revision-none p rev ch new)) (empty_record-Fits rev)
        | inr (r, old) ↦
            subst (Fits rev) (sym (record_for_revision-some p rev r ch old))
              (h.at (p.key_func rev) r old)
      ]

  store-at :
      (rev : p.R) (r : ChangeRecord p) (ch : Changes p) (k : p.K) (x : ChangeRecord p)
      → Fits rev r
      → IsConsistent ch
      → GoMap.lookup ⦃e = p.key_eq⦄ k (store p rev r ch).records ≡ some x
      → IsConsistentRecord x × (p.key_func x.rev ≡ k)
  store-at rev r ch k x f h e = elim (Bool-cases (p.key_eq.beq (p.key_func rev) k)) [
    | inl same ↦
        let q : r ≡ x = ground (arith, lookup-store p rev r ch k) in
        let key : p.key_func rev ≡ k = (p.key_eq.beq_iff (p.key_func rev) k).0 same in
        subst (λ y. IsConsistentRecord y × (p.key_func y.rev ≡ k)) q (f.0, f.1 ∙ key)
    | inr other ↦ h.at k x (ground (arith, lookup-store p rev r ch k))
  ]

  pub store-IsConsistent :
      (rev : p.R) (r : ChangeRecord p) (ch : Changes p)
      → Fits rev r
      → IsConsistent ch
      → IsConsistent (store p rev r ch)
  store-IsConsistent rev r ch f h = record {
    distinct =
        unfold store in Distinct-insert ⦃e = p.key_eq⦄ (p.key_func rev) r ch.records h.distinct;
    at = λ k x e. store-at rev r ch k x f h e;
  }

  pub adjust_byte_size-IsConsistent :
      (size : ℕ) (delta : Bool) (ch : Changes p)
      → IsConsistent ch
      → IsConsistent (adjust_byte_size p size delta ch).1
  adjust_byte_size-IsConsistent size delta ch h = record {
    distinct = rw (records-adjust_byte_size p size delta ch) h.distinct;
    at = λ k x e. h.at k x (rw (records-adjust_byte_size p size delta ch) at e);
  }

  module _ (rev : p.R) (r : ChangeRecord p) (f : Fits rev r) where
    pub without_delete-Fits : (key : Str) → Fits rev (without_delete p key r)
    without_delete-Fits key = (
      record {
        one_effect = λ k e. ground (arith, lookup-delete key k r.rel_deletes, f.0.one_effect k);
        touch_key = f.0.touch_key;
        delete_key = λ k x e. ground (arith, lookup-delete key k r.rel_deletes, f.0.delete_key k x);
        namespace_effect = f.0.namespace_effect;
        caveat_effect = f.0.caveat_effect;
      },
      f.1,
    )

    pub touched-Fits :
        (rel : p.Rel)
        → let key = p.string_without_caveat_or_expiration rel in
          GoMap.lookup key r.rel_deletes ≡ none
          → Fits rev (record r { rel_touches = GoMap.insert key rel r.rel_touches })
    touched-Fits rel free =
        let key = p.string_without_caveat_or_expiration rel in
        (
          record {
            one_effect = λ k e.
                ground (
                  arith,
                  lookup-insert key k rel r.rel_touches,
                  str_eq_iff key k,
                  f.0.one_effect k,
                );
            touch_key = λ k x e.
                ground (
                  arith,
                  lookup-insert key k rel r.rel_touches,
                  str_eq_iff key k,
                  f.0.touch_key k x,
                );
            delete_key = f.0.delete_key;
            namespace_effect = f.0.namespace_effect;
            caveat_effect = f.0.caveat_effect;
          },
          f.1,
        )

    pub deleted-Fits :
        (rel : p.Rel)
        → let key = p.string_without_caveat_or_expiration rel in
          GoMap.lookup key r.rel_touches ≡ none
          → Fits rev (record r { rel_deletes = GoMap.insert key rel r.rel_deletes })
    deleted-Fits rel free =
        let key = p.string_without_caveat_or_expiration rel in
        (
          record {
            one_effect = λ k e.
                ground (
                  arith,
                  lookup-insert key k rel r.rel_deletes,
                  str_eq_iff key k,
                  f.0.one_effect k,
                );
            touch_key = f.0.touch_key;
            delete_key = λ k x e. ground (
              arith,
              lookup-insert key k rel r.rel_deletes,
              str_eq_iff key k,
              f.0.delete_key k x,
            );
            namespace_effect = f.0.namespace_effect;
            caveat_effect = f.0.caveat_effect;
          },
          f.1,
        )

    pub namespace_deleted-Fits :
        (name : Str)
        → GoMap.lookup (ns_prefix ++ name) r.definitions_changed ≡ none
        → Fits rev (record r {
          definitions_changed = GoMap.delete (ns_prefix ++ name) r.definitions_changed;
          namespaces_deleted = GoMap.insert name tt r.namespaces_deleted;
        })
    namespace_deleted-Fits name free = (
      record {
        one_effect = f.0.one_effect;
        touch_key = f.0.touch_key;
        delete_key = f.0.delete_key;
        namespace_effect = λ n e. ground (
          arith,
          lookup-insert name n tt r.namespaces_deleted,
          str_eq_iff name n,
          lookup-delete (ns_prefix ++ name) (ns_prefix ++ n) r.definitions_changed,
          str_eq_iff (ns_prefix ++ name) (ns_prefix ++ n),
          f.0.namespace_effect n,
        );
        caveat_effect = λ n e. f.0.caveat_effect n (
            ground (
              arith,
              lookup-delete (ns_prefix ++ name) (caveat_prefix ++ n) r.definitions_changed,
              str_eq_iff (ns_prefix ++ name) (caveat_prefix ++ n),
            ));
      },
      f.1,
    )

    pub caveat_deleted-Fits :
        (name : Str)
        → GoMap.lookup (caveat_prefix ++ name) r.definitions_changed ≡ none
        → Fits rev (record r {
          definitions_changed = GoMap.delete (caveat_prefix ++ name) r.definitions_changed;
          caveats_deleted = GoMap.insert name tt r.caveats_deleted;
        })
    caveat_deleted-Fits name free = (
      record {
        one_effect = f.0.one_effect;
        touch_key = f.0.touch_key;
        delete_key = f.0.delete_key;
        namespace_effect = λ n e. f.0.namespace_effect n (
            ground (
              arith,
              lookup-delete (caveat_prefix ++ name) (ns_prefix ++ n) r.definitions_changed,
              str_eq_iff (caveat_prefix ++ name) (ns_prefix ++ n),
            ));
        caveat_effect = λ n e. ground (
          arith,
          lookup-insert name n tt r.caveats_deleted,
          str_eq_iff name n,
          lookup-delete (caveat_prefix ++ name) (caveat_prefix ++ n) r.definitions_changed,
          str_eq_iff (caveat_prefix ++ name) (caveat_prefix ++ n),
          f.0.caveat_effect n,
        );
      },
      f.1,
    )
