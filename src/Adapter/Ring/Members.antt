-- ===== src/Adapter/Ring/Members.antt =====
-- The members of a ring of services/provider-adapter/internal/shard/ring.go: a set, however it was
-- listed.
use dabet.Prelude.{
  inr, inl, ◌==◌, length, Bool-cases, arith, ◌&&◌, ◌≡◌, not, keep, ℕ, List, Bool, refl,
}
use dabet.Adapter.Ring.{Point, point_order, new_ring, uniq_of, is_named}
use dabet.Adapter.Ring.Bytes.{bytes_order}
use dabet.Prelude.Int.{ℤ}
use dabet.Prelude.Sort.{sort, compact, mem, same, sort-Sorted, Increasing}
use dabet.Prelude.Sort.Unique.{
  Increasing-unique, mem-sort, mem-compact, compact-Increasing, mem-keep, keep-Increasing,
}

pub uniq_of-Increasing : (ms : List (List ℕ)) → Increasing (uniq_of ms)
unfolding uniq_of
uniq_of-Increasing ms =
    keep-Increasing is_named (compact (sort ms)) (compact-Increasing (sort ms) (sort-Sorted ms))

pub mem-uniq_of : (m : List ℕ) (ms : List (List ℕ)) → mem m (uniq_of ms) ≡ (is_named m && mem m ms)
unfolding uniq_of
mem-uniq_of m ms =
    ground (arith, mem-keep is_named m (compact (sort ms)), mem-compact m (sort ms), mem-sort m ms)

-- Two lists with the same members, in any order and with any repetitions, give the same ring.
pub new_ring_unique :
    (sum256 : List ℕ → List ℕ) (replicas : ℤ) (ms ns : List (List ℕ))
    → ((m : List ℕ) → mem m ms ≡ mem m ns)
    → new_ring sum256 replicas ms ≡ new_ring sum256 replicas ns
unfolding new_ring
new_ring_unique sum256 replicas ms ns e =
    let same_set : uniq_of ms ≡ uniq_of ns =
      Increasing-unique (uniq_of ms) (uniq_of ns) (uniq_of-Increasing ms) (uniq_of-Increasing ns)
        (λ m. ground (arith, mem-uniq_of m ms, mem-uniq_of m ns, e m)) in
    rw same_set refl

-- All members but one.
abbrev pub without : List ℕ → List (List ℕ) → List (List ℕ)
without x ms = keep (λ m. not (same m x)) ms

abbrev pub not_of : List ℕ → Point → Bool
not_of x p = not (same p.owner x)

pub uniq_of-without :
    (x : List ℕ) (ms : List (List ℕ)) → uniq_of (without x ms) ≡ without x (uniq_of ms)
uniq_of-without x ms =
    Increasing-unique (uniq_of (without x ms)) (without x (uniq_of ms))
      (uniq_of-Increasing (without x ms))
      (keep-Increasing (λ m. not (same m x)) (uniq_of ms) (uniq_of-Increasing ms))
      (λ m. ground (
        arith,
        mem-uniq_of m (without x ms),
        mem-uniq_of m ms,
        mem-keep (λ n. not (same n x)) m ms,
        mem-keep (λ n. not (same n x)) m (uniq_of ms),
      ))

pub members-new_ring :
    (sum256 : List ℕ → List ℕ) (replicas : ℤ) (ms : List (List ℕ))
    → (new_ring sum256 replicas ms).members ≡ uniq_of ms
unfolding new_ring
members-new_ring sum256 replicas ms = elim (Bool-cases (length (uniq_of ms) == 0)) [
  | inl empty ↦ rw empty refl
  | inr inhabited ↦ rw inhabited refl
]
