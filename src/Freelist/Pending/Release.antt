-- ===== src/Freelist/Pending/Release.antt =====
-- `release` of src/freelist.rs: the pending pages of the transactions up to an id become free.
use bbolt_rs.Prelude.{
  ℕ, ◌+◌, ◌≤◌, ◌≡◌, ◌↔◌, ◌⊎◌, inl, inr, none, some, List, [], ◌∷◌, arith, leb, if◌then◌else◌, Map,
  get, DistinctKeys, contains, contains-append, ◌==◌, count, count-append, Bool-cases, true,
}
use bbolt_rs.Freelist.{Freelist, TxPending}
use bbolt_rs.Freelist.Spans.{IsFree}
use bbolt_rs.Freelist.Consistent.{
  pending_ids, AllPairs, AllEntries, Anything, IsConsistent, move-IsFree, move-IsConsistent,
  merge_spans_same_rest,
}
use bbolt_rs.Freelist.Pending.{unreleased, released, release}

pub get-unreleased :
    (txid tid : ℕ) (m : Map TxPending)
    → get tid (unreleased txid m) ≡ (if leb tid txid then none else get tid m)
unfolding unreleased get
get-unreleased txid tid [] = ground arith
get-unreleased txid tid ((t, txp) ∷ m) = ground (arith, get-unreleased txid tid m)

unreleased-DistinctKeys :
    (txid : ℕ) (m : Map TxPending) → DistinctKeys m → DistinctKeys (unreleased txid m)
unfolding unreleased
unreleased-DistinctKeys txid [] d = d
unreleased-DistinctKeys txid ((t, txp) ∷ m) d =
    ground (arith, unreleased-DistinctKeys txid m d.1, get-unreleased txid t m)

unreleased-AllEntries :
    (Q : ℕ → ℕ → ℕ → Type 0) (txid : ℕ) (m : Map TxPending)
    → AllEntries Q m
    → AllEntries Q (unreleased txid m)
unfolding unreleased
unreleased-AllEntries Q txid [] d = d
unreleased-AllEntries Q txid ((t, txp) ∷ m) (d, rest) = elim (Bool-cases (leb t txid)) [
  | inl old ↦ rw old (unreleased-AllEntries Q txid m rest)
  | inr young ↦ rw young (d, unreleased-AllEntries Q txid m rest)
]

-- No page is lost between the two halves.
pub count-released :
    (p txid : ℕ) (m : Map TxPending)
    → count p (pending_ids m)
      ≡ count p (pending_ids (unreleased txid m)) + count p (released txid m)
unfolding pending_ids unreleased released
count-released p txid [] = omega arith
count-released p txid ((t, txp) ∷ m) = elim (Bool-cases (leb t txid)) [
  | inl old ↦ rw old (
      omega (
        arith,
        count-append p txp.ids (pending_ids m),
        count-append p txp.ids (released txid m),
        count-released p txid m,
      ))
  | inr young ↦ rw young (
      omega (
        arith,
        count-append p txp.ids (pending_ids m),
        count-append p txp.ids (pending_ids (unreleased txid m)),
        count-released p txid m,
      ))
]

-- `release` keeps a consistent freelist consistent. Exactly the pages pending for a transaction up
-- to `txid` become free, the other transactions' lists stay, and the cache and the allocations do
-- not change.
pub release-IsConsistent :
    (f : Freelist) (txid : ℕ)
    → IsConsistent f
    → IsConsistent (release f txid)
      × ((q : ℕ)
          → IsFree (release f txid) q
            ↔ (IsFree f q ⊎ (contains q (released txid f.pending) ≡ true)))
      × ((q : ℕ)
          → count q (pending_ids f.pending)
            ≡ count q (pending_ids (release f txid).pending) + count q (released txid f.pending))
      × ((tid : ℕ)
          → get tid (release f txid).pending ≡ (if leb tid txid then none else get tid f.pending))
      × ((release f txid).cache ≡ f.cache)
      × ((release f txid).allocs ≡ f.allocs)
unfolding release
release-IsConsistent f txid c =
    let kept = unreleased txid f.pending in
    let out = released txid f.pending in
    let same = merge_spans_same_rest (record f { pending = kept }) out in
    let keys = unreleased-DistinctKeys txid f.pending c.pending_keys in
    let paired = unreleased-AllEntries Anything txid f.pending c.paired in
    let conserved = λ (p : ℕ). count-released p txid f.pending in
    (
      move-IsConsistent f kept out c keys paired conserved,
      move-IsFree f kept out c keys paired conserved,
      λ q. rw same.0 (conserved q),
      λ tid. rw same.0 (get-unreleased txid tid f.pending),
      same.1,
      same.2,
    )

-- The page was freed by a transaction up to `txid`.
abbrev pub IsOld : (ℕ → ℕ → ℕ → Type 0) → ℕ → ℕ → Type 0
IsOld Q txid p = (tid : ℕ) × (a : ℕ) × Q tid p a × (tid ≤ txid)

pub contains-pairs :
    (Q : ℕ → ℕ → ℕ → Type 0) (tid p : ℕ) (ps as' : List ℕ)
    → AllPairs (Q tid) ps as'
    → contains p ps ≡ true
    → (a : ℕ) × Q tid p a
unfolding contains
contains-pairs Q tid p [] [] h e = cc
contains-pairs Q tid p [] (a ∷ as') h e = absurd h
contains-pairs Q tid p (r ∷ rs) [] h e = absurd h
contains-pairs Q tid p (r ∷ rs) (a ∷ as') (q, h) e = elim (Bool-cases (r == p)) [
  | inl here ↦ let e' : r ≡ p = ground arith in (a, rw (← e') q)
  | inr there ↦ contains-pairs Q tid p rs as' h (ground arith)
]

pub contains-released-IsOld :
    (Q : ℕ → ℕ → ℕ → Type 0) (txid p : ℕ) (m : Map TxPending)
    → AllEntries Q m
    → contains p (released txid m) ≡ true
    → IsOld Q txid p
unfolding released contains
contains-released-IsOld Q txid p [] qs e = cc
contains-released-IsOld Q txid p ((t, txp) ∷ m) (q, qs) e = elim (Bool-cases (leb t txid)) [
  | inl old ↦ elim (Bool-cases (contains p txp.ids)) [
    | inl here ↦
        let (a, x) = contains-pairs Q t p txp.ids txp.alloc_tx q here in (t, a, x, ground arith)
    | inr there ↦
        contains-released-IsOld Q txid p m qs
          (ground (arith, contains-append p txp.ids (released txid m)))
  ]
  | inr young ↦ contains-released-IsOld Q txid p m qs (ground arith)
]

pub contains-released :
    (txid tid p : ℕ) (txp : TxPending) (m : Map TxPending)
    → get tid m ≡ some txp
    → contains p txp.ids ≡ true
    → tid ≤ txid
    → contains p (released txid m) ≡ true
unfolding released get contains
contains-released txid tid p txp [] e h le = cc
contains-released txid tid p txp ((t, t') ∷ m) e h le =
    ground (arith, contains-append p t'.ids (released txid m), contains-released txid tid p txp m)

pub release-AllEntries :
    (Q : ℕ → ℕ → ℕ → Type 0) (f : Freelist) (txid : ℕ)
    → AllEntries Q f.pending
    → AllEntries Q (release f txid).pending
unfolding release
release-AllEntries Q f txid qs =
    let same =
      merge_spans_same_rest (record f { pending = unreleased txid f.pending })
        (released txid f.pending) in
    rw same.0 (unreleased-AllEntries Q txid f.pending qs)
