-- ===== src/Changes/Drain.antt =====
-- What `FilterAndRemoveRevisionChanges` gives out and what it leaves.
use mathlib.Core.List.{Perm}
use embedspicedb.Common.{
  ◌≡◌, refl, List, [], ◌∷◌, ◌++◌, map, filter, All, All-filter, Bool, true, false, Option, some,
  not, ap, sym, ◌∙◌, all,
}
use embedspicedb.Common.Str.{Str}
use embedspicedb.Common.GoMap
use embedspicedb.Common.GoMap.{GoMap}
use embedspicedb.Common.GoMap.Distinct.{keep, All-lookup}
use embedspicedb.Common.Result.{Result, ok, err}
use embedspicedb.Common.Sort.{
  sort_slice, IsSorted, IsStrictWeak, sort_slice-perm, sort_slice-IsSorted, sort_slice-map,
  All-sort_slice,
}
use embedspicedb.Changes.{
  Params, SchemaDefinition, touch, delete, ChangesError, ChangeRecord, Changes,
}
use embedspicedb.Changes.Output.{
  RevisionChanges, record_changes, within, prepend_changes, revisions_with_changes, collect_changes,
  revision_changes, remove_all_changes_before, drained, filter_and_remove_revision_changes,
}
use embedspicedb.Changes.Consistent.{IsConsistent}
use embedspicedb.Changes.Sequences.{lookup-remove}

module _ (p : Params) (less : p.K → p.K → Bool) where
  abbrev Entry : Type 0
  Entry = p.K × ChangeRecord p

  -- The records that a bound lets through, and the same in the order of their keys.
  abbrev pub passing : Option p.R → Changes p → List Entry
  passing bound ch = filter (λ (x : Entry). within p bound x.1) ch.records

  abbrev pub key_less : Entry → Entry → Bool
  key_less x y = less x.0 y.0

  -- What is told of a record: its touches as touches, its deletes as deletes, its changed definitions,
  -- the names of its deleted namespaces and caveats, and its metadata as structs.
  abbrev pub told : ChangeRecord p → RevisionChanges p
  told r = record {
    revision = r.rev;
    relationship_changes =
        map (λ (x : Str × p.Rel). (touch, x.1)) r.rel_touches
        ++ map (λ (x : Str × p.Rel). (delete, x.1)) r.rel_deletes;
    changed_definitions = map (λ (x : Str × SchemaDefinition p). x.1) r.definitions_changed;
    deleted_namespaces = map (λ (x : Str × Unit {0}). x.0) r.namespaces_deleted;
    deleted_caveats = map (λ (x : Str × Unit {0}). x.0) r.caveats_deleted;
    metadatas = map p.must_struct r.metadatas;
  }

  changes_of : List Entry → List (RevisionChanges p)
  changes_of es = map (λ (x : Entry). told x.1) es

  prepend_inverse :
      (b : Bool) (r : ChangeRecord p) (m : Result ChangesError (List (RevisionChanges p)))
      (out : List (RevisionChanges p))
      → prepend_changes p b r m ≡ ok out
      → (rest : List (RevisionChanges p)) × (m ≡ ok rest) × (record_changes p r ∷ rest ≡ out)
  prepend_inverse false r m out h = cc
  prepend_inverse true r (ok rest) out h = (rest, refl, cc)
  prepend_inverse true r (err e) out h = cc

  collect_step :
      (k : p.K) (r : ChangeRecord p) (ks : List p.K) (ch : Changes p)
      (out : List (RevisionChanges p))
      → GoMap.lookup ⦃e = p.key_eq⦄ k ch.records ≡ some r
      → collect_changes p (k ∷ ks) ch ≡ ok out
      → (rest : List (RevisionChanges p)) × (collect_changes p ks ch ≡ ok rest)
        × (record_changes p r ∷ rest ≡ out)
  unfolding collect_changes
  collect_step k r ks ch out h c =
      prepend_inverse (all p.converts r.metadatas) r (collect_changes p ks ch) out
        (rw (h, collect_changes) at c)

  -- Collecting the keys of entries gives the changes of their records.
  collect_entries :
      (es : List Entry) (ch : Changes p) (out : List (RevisionChanges p))
      → All (λ x. GoMap.lookup ⦃e = p.key_eq⦄ x.0 ch.records ≡ some x.1) es
      → collect_changes p (map (λ (x : Entry). x.0) es) ch ≡ ok out
      → out ≡ changes_of es
  unfolding changes_of
  collect_entries [] ch out h c = unfold collect_changes in cc
  collect_entries ((k, r) ∷ es) ch out h c =
      let (rest, tail, whole) = collect_step k r (map (λ (x : Entry). x.0) es) ch out h.0 c in
      sym whole ∙ ap (λ l. record_changes p r ∷ l) (collect_entries es ch rest h.1 tail)

  revision_changes_lem :
      (bound : Option p.R) (ch : Changes p) (out : List (RevisionChanges p))
      → IsConsistent p ch
      → revision_changes p less bound ch ≡ ok out
      → out ≡ changes_of (sort_slice key_less (passing bound ch))
  unfolding revision_changes revisions_with_changes
  revision_changes_lem bound ch out h c =
      collect_entries (sort_slice key_less (passing bound ch)) ch out
        (All-sort_slice key_less _ (passing bound ch)
          (All-filter _ _ ch.records (All-lookup ⦃e = p.key_eq⦄ ch.records h.distinct)))
        (rw (sort_slice-map (λ (x : Entry). x.0) less (passing bound ch)) at c)

  drained_inverse :
      (m : Result ChangesError (List (RevisionChanges p))) (bound : p.R)
      (between : Changes p → Changes p) (ch ch' : Changes p) (out : List (RevisionChanges p))
      → drained p m bound between ch ≡ (ok out, ch')
      → (m ≡ ok out) × (remove_all_changes_before p bound (between ch) ≡ ch')
  drained_inverse (err e) bound between ch ch' out h = cc
  drained_inverse (ok changes) bound between ch ch' out h = (cc, cc)

  -- A successful drain of a consistent tracker, with keys under a strict weak order, tells of the
  -- records whose revision the bound is greater than, each once, in the order of their keys and with
  -- all its touches, deletes, definitions, deleted names and metadata; and of what other calls make
  -- of the tracker meanwhile, where that is consistent, it leaves under each key the record that is
  -- there unless the bound is greater than its revision.
  pub filter_and_remove_drains :
      (bound : p.R) (between : Changes p → Changes p) (ch ch' : Changes p)
      (out : List (RevisionChanges p))
      → IsStrictWeak less
      → IsConsistent p ch
      → IsConsistent p (between ch)
      → filter_and_remove_revision_changes p less bound between ch ≡ (ok out, ch')
      → (es : List Entry) × (out ≡ map (λ (x : Entry). told x.1) es)
        × Perm es (passing (some bound) ch)
        × IsSorted key_less es
        × ((k : p.K)
            → GoMap.lookup ⦃e = p.key_eq⦄ k ch'.records
              ≡ keep
                  (λ (r : ChangeRecord p). not (p.greater_than bound r.rev))
                  (GoMap.lookup ⦃e = p.key_eq⦄ k (between ch).records))
  unfolding filter_and_remove_revision_changes changes_of
  filter_and_remove_drains bound between ch ch' out o h after c =
      let (given, left) =
        drained_inverse (revision_changes p less (some bound) ch) bound between ch ch' out c in
      (
        sort_slice key_less (passing (some bound) ch),
        revision_changes_lem (some bound) ch out h given,
        sort_slice-perm key_less (passing (some bound) ch),
        sort_slice-IsSorted key_less
            (record { asym = λ a b. o.asym a.0 b.0; neg_trans = λ a b c. o.neg_trans a.0 b.0 c.0 })
            (passing (some bound) ch),
        λ k. rw (← left) (lookup-remove p less bound (between ch) k after.distinct),
      )
