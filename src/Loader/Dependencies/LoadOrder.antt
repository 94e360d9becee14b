-- ===== src/Loader/Dependencies/LoadOrder.antt =====
-- `load_order` always returns: a cycle, or an order of all packages.
use nyarix_runtime.Base.{
  ℕ, suc, ◌≡◌, refl, sym, ◌∙◌, inl, inr, List, [], ◌∷◌, arith, length, elem, Bool-cases,
}
use nyarix_runtime.Base.Maps.{Map, contains_key, keys, elem-keys, length-keys}
use nyarix_runtime.Base.Walks.{unseen_le}
use nyarix_runtime.Loader.Dependencies.Ordering.{Ordered, elem-sort}
use nyarix_runtime.Loader.Dependencies.Visiting.{is_visited, IsCycle, Inv}
use nyarix_runtime.Loader.Dependencies.Calls.{LoopOk, visit_all-LoopOk, visit-LoopOk}
use nyarix_runtime.Loader.Dependencies.{
  Mark, unvisited, mark_of, Visit, cyclic, visited, out_of_fuel, visit, unvisited_all,
  DependencyGraph, load_order, sort,
}

mark_of-unvisited_all : (names : List ℕ) (k : ℕ) → mark_of (unvisited_all names) k ≡ unvisited
mark_of-unvisited_all [] k = refl
mark_of-unvisited_all (n ∷ ns) k = ground (arith, mark_of-unvisited_all ns k)

-- What an answer of `load_order` says of the packages.
abbrev pub Order : Map (List ℕ) → Visit → Type 0
Order edges (cyclic c) = IsCycle edges c
Order edges (visited m path order) =
    Ordered edges [] order × ((k : ℕ) → elem k order ≡ contains_key k edges)
Order edges out_of_fuel = ⊥

LoopOk-Order :
    (edges : Map (List ℕ)) (names : List ℕ) (m : Map Mark) (path : List ℕ) (r : Visit)
    → ((k : ℕ) → elem k names ≡ contains_key k edges)
    → LoopOk edges names m path r
    → Order edges r
LoopOk-Order edges names m path (cyclic c) h l = l
LoopOk-Order edges names m path (visited m' path' order) h (same, grows, inv, all) = (
  inv.ordered,
  λ k. elim (Bool-cases (contains_key k edges)) [
    | inl there ↦ rw there (inv.listed k (all k (h k ∙ there)))
    | inr gone ↦ elim (Bool-cases (elem k order)) [
      | inl listed ↦ let there = inv.inside k listed in cc
      | inr none_ ↦ rw (gone, none_) refl
    ]
  ],
)
LoopOk-Order edges names m path out_of_fuel h l = l

-- `load_order` always returns, with a recursion at most one call deeper than there are packages. It
-- returns either a list of at least two packages that leads, from each to one that it needs, back to
-- its first, or an order in which every known package stands once, after all the known packages
-- that it depends on, and nothing else.
pub load_order-Order : (g : DependencyGraph) → Order g.edges (load_order g)
unfolding load_order
load_order-Order g =
    let m = unvisited_all (keys g.edges) in
    let fresh = mark_of-unvisited_all (keys g.edges) in
    let inv : Inv g.edges m [] [] = record {
      listed = λ k e. let f = fresh k in cc;
      marked = λ k e. cc;
      ordered = tt;
      inside = λ k e. cc;
      on_path = λ k e. let f = fresh k in cc;
    } in
    let named = λ (k : ℕ). elem-sort k (keys g.edges) ∙ elem-keys k g.edges in
    LoopOk-Order g.edges (sort (keys g.edges)) m [] _ named (
      visit_all-LoopOk g.edges (suc (length g.edges)) (visit g.edges (suc (length g.edges)))
        (visit-LoopOk g.edges (suc (length g.edges))) (sort (keys g.edges)) m [] [] inv
        (λ k e. (inl refl, sym (named k) ∙ e))
        (omega
          (arith, unseen_le (λ k. is_visited (mark_of m k)) (keys g.edges), length-keys g.edges)))
