-- ===== src/Sql/Like.antt =====
-- sql.go: BuildLikePrefixClause against what SQL documents of LIKE.
use embedspicedb.Common.{
  ℕ, ◌≡◌, ◌≢◌, arith, Bool, true, false, [], ◌∷◌, ◌++◌, if◌then◌else◌, ◌==◌, ==_iff, Bool-cases,
  inl, inr,
}
use embedspicedb.Common.Str.{Str, str_eq, has_prefix}
use embedspicedb.Common.Result.{ok}
use embedspicedb.Sql.Filters.{
  build_like_prefix_clause, replace_all, contains_byte, percent, underscore, backslash,
}

-- What SQL documents of a pattern: a percent sign at its end meets all that is left, a byte after the
-- escape stands for itself, and so does a byte that is none of the three.
pub record LikeLaws (matches : Str → Str → Bool) : Type 0 where
  pub matches-percent : (s : Str) → matches (percent ∷ []) s ≡ true
  pub matches-escaped :
      (c a : ℕ) (pattern s : Str)
      → matches (backslash ∷ c ∷ pattern) (a ∷ s) ≡ (if a == c then matches pattern s else false)
  pub matches-escaped_end : (c : ℕ) (pattern : Str) → matches (backslash ∷ c ∷ pattern) [] ≡ false
  pub matches-plain :
      (c a : ℕ) (pattern s : Str)
      → c ≢ percent
      → c ≢ underscore
      → c ≢ backslash
      → matches (c ∷ pattern) (a ∷ s) ≡ (if a == c then matches pattern s else false)
  pub matches-plain_end :
      (c : ℕ) (pattern : Str)
      → c ≢ percent
      → c ≢ underscore
      → c ≢ backslash
      → matches (c ∷ pattern) [] ≡ false

abbrev escaped : Str → Str
escaped prefix =
    replace_all underscore (backslash ∷ underscore ∷ [])
      (replace_all backslash (backslash ∷ backslash ∷ []) prefix)

escaped-backslash : (s : Str) → escaped (backslash ∷ s) ≡ backslash ∷ backslash ∷ escaped s
unfolding str_eq
escaped-backslash s = ground arith

escaped-underscore : (s : Str) → escaped (underscore ∷ s) ≡ backslash ∷ underscore ∷ escaped s
unfolding str_eq
escaped-underscore s = ground arith

escaped-plain : (c : ℕ) (s : Str) → c ≢ underscore → c ≢ backslash → escaped (c ∷ s) ≡ c ∷ escaped s
unfolding str_eq
escaped-plain c s u b = ground arith

module _ (matches : Str → Str → Bool) (laws : LikeLaws matches) where
  matches-escaped_prefix :
      (prefix s : Str)
      → contains_byte percent prefix ≡ false
      → matches (escaped prefix ++ percent ∷ []) s ≡ has_prefix s prefix
  unfolding has_prefix str_eq
  matches-escaped_prefix [] s h = laws.matches-percent s
  matches-escaped_prefix (c ∷ prefix) [] h = elim (Bool-cases (c == backslash)) [
    | inl slash ↦ ground (
      arith,
      escaped-backslash prefix,
      laws.matches-escaped_end backslash (escaped prefix ++ percent ∷ []),
      ==_iff c backslash,
    )
    | inr other ↦ elim (Bool-cases (c == underscore)) [
      | inl under ↦ ground (
        arith,
        escaped-underscore prefix,
        laws.matches-escaped_end underscore (escaped prefix ++ percent ∷ []),
        ==_iff c underscore,
      )
      | inr plain ↦
          ground (
            arith,
            escaped-plain c prefix,
            laws.matches-plain_end c (escaped prefix ++ percent ∷ []),
          )
    ]
  ]
  matches-escaped_prefix (c ∷ prefix) (a ∷ s) h =
      let ih = matches-escaped_prefix prefix s in
      elim (Bool-cases (c == backslash)) [
        | inl slash ↦ ground (
          arith,
          ih,
          escaped-backslash prefix,
          laws.matches-escaped backslash a (escaped prefix ++ percent ∷ []) s,
          ==_iff c backslash,
        )
        | inr other ↦ elim (Bool-cases (c == underscore)) [
          | inl under ↦ ground (
            arith,
            ih,
            escaped-underscore prefix,
            laws.matches-escaped underscore a (escaped prefix ++ percent ∷ []) s,
            ==_iff c underscore,
          )
          | inr plain ↦ ground (
            arith,
            ih,
            escaped-plain c prefix,
            laws.matches-plain c a (escaped prefix ++ percent ∷ []) s,
          )
        ]
      ]

  -- A prefix that is not empty and has no percent sign gives a clause that matches exactly the values
  -- that start with the prefix, whatever underscores and backslashes are in it.
  pub build_like_prefix_clause-has_prefix :
      (prefix s : Str)
      → prefix ≢ []
      → contains_byte percent prefix ≡ false
      → (pattern : Str) × (build_like_prefix_clause prefix ≡ ok pattern)
        × (matches pattern s ≡ has_prefix s prefix)
  unfolding build_like_prefix_clause
  build_like_prefix_clause-has_prefix [] s n h = ground arith
  build_like_prefix_clause-has_prefix (c ∷ prefix) s n h =
      (escaped (c ∷ prefix) ++ percent ∷ [], ground arith, matches-escaped_prefix (c ∷ prefix) s h)
