-- ===== src/Tx/Growth.antt =====
-- An error of `grow` in `commit` of src/tx.rs: the calls before it have succeeded.
use bbolt_rs.Prelude.{
  ℕ, ◌≡◌, refl, ◌∙◌, false, true, Option, none, some, List, ◌*◌, ◌%◌, u64_mod, add_u64, subst, ltb,
  Outcome, done, panic, diverge, ◌>>=◌,
}
use bbolt_rs.Page.{PageHeader}
use bbolt_rs.Meta.{MetaPage}
use bbolt_rs.Freelist.{Freelist}
use bbolt_rs.Freelist.Stored.{FreelistPage}
use bbolt_rs.Freelist.Pending.{free}
use bbolt_rs.Db.State.{commit, commit_freelist}
use bbolt_rs.Tx.{
  Backend, Tx, is_explicit_rollback, place_freelist, commit_freelist_tx, grow_result, after_grow,
  after_freelist, after_spill, commit_tx, mmap_to, has_meta_page,
}

-- A chain that ends did so step by step.
pub bind-done :
    {A B : Type 0} (x : Outcome A) (f : A → Outcome B) (y : B)
    → (x >>= f) ≡ done y
    → (a : A) × (x ≡ done a) × (f a ≡ done y)
bind-done (done a) f y e = (a, refl, e)
bind-done panic f y e = cc
bind-done diverge f y e = cc

module _ {E : Type 0} (b : Backend E) (fnv : List ℕ → ℕ) (kmerge : List ℕ → List ℕ → List ℕ)
    (rebalance : Tx → Outcome Tx) (spill : Tx → Outcome (Tx × Option E)) (page_at : ℕ → PageHeader)
    (meta_memory : MetaPage) where
  -- The file has to grow from `opgid` on, and cannot.
  abbrev pub CannotGrow : ℕ → Tx → E → Type 0
  CannotGrow opgid t e =
      (has_meta_page t.pages ≡ false)
      × (ltb opgid t.meta.pgid ≡ true)
      × (b.grow ((add_u64 t.meta.pgid 1 * t.meta.page_size) % u64_mod) ≡ some e)

  -- The transaction after the spilling, with the former freelist's page freed.
  abbrev pub before_freelist : Tx → Freelist → Tx
  before_freelist t freelist = record t {
    meta = record t.meta { root = t.root };
    db = record t.db { freelist = freelist };
  }

  -- The commit of the first comes to the call of `grow` as the second, and the call fails.
  pub record GrowFails (t t' : Tx) (e : E) : Type 0 where
    pub rebalanced : Tx
    pub spilt : Tx
    pub freelist : Freelist
    pub rebalances : rebalance (record t { closing = commit }) ≡ done rebalanced
    pub spills : spill rebalanced ≡ done (spilt, none)
    pub frees :
        free spilt.db.freelist spilt.meta.txid (page_at spilt.meta.free_list) ≡ done freelist
    pub places :
        commit_freelist_tx b fnv kmerge rebalance spill page_at meta_memory
          (before_freelist spilt freelist)
        ≡ done (t', none)
    pub fails : CannotGrow rebalanced.meta.pgid t' e

  place_freelist_closing :
      (t : Tx) (id : ℕ) (page : FreelistPage) (r : Option E)
      → ((place_freelist b fnv kmerge rebalance spill page_at meta_memory t id page r).0).closing
        ≡ t.closing
  unfolding place_freelist
  place_freelist_closing t id page none = refl
  place_freelist_closing t id page (some e) = refl

  pub commit_freelist_tx_closing :
      (t : Tx) (r : Tx × Option E)
      → commit_freelist_tx b fnv kmerge rebalance spill page_at meta_memory t ≡ done r
      → (r.0).closing ≡ t.closing
  unfolding commit_freelist_tx
  commit_freelist_tx_closing t r run =
      let ((g, m, a, page), _, e) =
        bind-done (commit_freelist kmerge b.page_size b.data_size t.db.freelist t.meta) _ r run in
      let t' : Tx = record t { db = record t.db { freelist = g }; meta = m } in
      let same : place_freelist b fnv kmerge rebalance spill page_at meta_memory t' a.id page
            (mmap_to b fnv kmerge rebalance spill page_at meta_memory a.new_size)
          ≡ r =
        cc in
      subst (λ r. (r.0).closing ≡ t.closing) same (place_freelist_closing t' a.id page _)

  pub GrowFails-commit_tx :
      (t t' : Tx) (e : E)
      → is_explicit_rollback t.closing ≡ false
      → GrowFails t t' e
      → commit_tx b fnv kmerge rebalance spill page_at meta_memory t ≡ done (t', some e)
  unfolding commit_tx after_spill after_freelist after_grow grow_result
  GrowFails-commit_tx t t' e going g =
      let (pages, more, fails) = g.fails in
      rw (going, g.rebalances, g.spills, g.frees, g.places, pages, more, fails) refl

  pub GrowFails-closing :
      (t t' : Tx) (e : E)
      → ((t t' : Tx) → rebalance t ≡ done t' → t'.closing ≡ t.closing)
      → ((t : Tx) (r : Tx × Option E) → spill t ≡ done r → (r.0).closing ≡ t.closing)
      → GrowFails t t' e
      → t'.closing ≡ commit
  GrowFails-closing t t' e rebalances spills g =
      commit_freelist_tx_closing (before_freelist g.spilt g.freelist) (t', none) g.places
      ∙ spills g.rebalanced (g.spilt, none) g.spills
      ∙ rebalances (record t { closing = commit }) g.rebalanced g.rebalances
