-- ===== src/Revisions/Hlc/Order.antt =====
-- The comparisons of hlcrevision.go.
use embedspicedb.Common.{ℕ, ◌+◌, ◌≤◌, ◌<◌, ◌≡◌, Bool, true, false, ◌⊎◌, some, arith}
use embedspicedb.Common.Int.{ℤ, eqb_ℤ_iff}
use embedspicedb.Common.Result.{ok}
use embedspicedb.Revisions.{HlcRevision, Revision, hlc}
use embedspicedb.Revisions.Hlc.{
  rhs_hlc, equal, greater_than, less_than, hlc_key_less_than_func, with_logical_clock, max_uint32,
}

-- What the three tests say of a revision and a right side.
abbrev pub Verdict : HlcRevision → Revision → Bool → Bool → Bool → Type 0
Verdict a rhs less same greater =
    (less_than a rhs ≡ some less) × (equal a rhs ≡ some same) × (greater_than a rhs ≡ some greater)

-- Against a clock revision, or against `NoRevision` read as zero, none of the three tests panics and
-- exactly one of them passes; `Equal` is the one that passes exactly when the two are the same.
pub comparisons_exclusive :
    (a r : HlcRevision) (rhs : Revision)
    → rhs_hlc rhs ≡ some r
    → (Verdict a rhs true false false
        ⊎ Verdict a rhs false false true
        ⊎ (Verdict a rhs false true false × (a ≡ r)))
unfolding less_than equal greater_than
comparisons_exclusive a r rhs h = ground (arith, eqb_ℤ_iff a.time r.time)

-- The strict order is transitive, `GreaterThan` is its mirror image, and the key order is the same.
pub less_than_order :
    (a b c : HlcRevision)
    → (greater_than b (hlc a) ≡ less_than a (hlc b))
      × (less_than a (hlc b) ≡ some (hlc_key_less_than_func a b))
      × (less_than a (hlc b) ≡ some true
          → less_than b (hlc c) ≡ some true
          → less_than a (hlc c) ≡ some true)
unfolding less_than greater_than hlc_key_less_than_func
less_than_order a b c = (ground arith, ground arith, λ h k. ground arith)

-- Two logical clocks at one time, of which only the larger one wraps past 2 ^ 32 when the offset is
-- added: the revision with the larger clock compares as less than the other one.
pub wrapped_clock_less :
    (offset m n : ℕ) (t : ℤ) (a b : HlcRevision)
    → m < n
    → n ≤ max_uint32
    → offset ≤ max_uint32
    → m + offset < 4294967296
    → 4294967296 ≤ n + offset
    → with_logical_clock offset t (some m) ≡ ok a
    → with_logical_clock offset t (some n) ≡ ok b
    → less_than b (hlc a) ≡ some true
unfolding with_logical_clock less_than
wrapped_clock_less offset m n t a b lt fits o low high p q = ground arith
