-- ===== src/Agtype/Parser/Paths.antt =====
-- is_array_path of agtype.c, against a description of the arrays that are paths.
use incubator_age.Prelude.{
  ℕ, ◌+◌, ◌*◌, ◌-◌, ◌%◌, ◌≤◌, ◌≡◌, ◌↔◌, refl, ap, sym, Bool, true, false, not, ◌&&◌, ◌||◌, ltb,
  ◌==◌, arith, if◌then◌else◌, inl, inr, ◌⊎◌,
}
use mathlib.Core.Path.{subst}
use incubator_age.Agtype.{AgtypeValue, vertex, edge, Pairs, Elems, nil, cons, num_elems}
use incubator_age.Agtype.Parser.Input.{is_vertex, is_edge, path_loop, is_array_path}

-- A vertex, an edge and a vertex, or a vertex and an edge before a path.
pub data IsPath : Elems → Type 0 where
  one_edge : (a e b : Pairs) → IsPath (cons (vertex a) (cons (edge e) (cons (vertex b) nil)))
  more : (a e : Pairs) {es : Elems} → IsPath es → IsPath (cons (vertex a) (cons (edge e) es))

vertex_of : (v : AgtypeValue) → is_vertex v ≡ true → (ps : Pairs) × (v ≡ vertex ps)
vertex_of (vertex ps) h = (ps, refl)
vertex_of _ h = absurd (cc h)

edge_of : (v : AgtypeValue) → is_edge v ≡ true → (ps : Pairs) × (v ≡ edge ps)
edge_of (edge ps) h = (ps, refl)
edge_of _ h = absurd (cc h)

-- a path's elements: an odd number of them, three at least
record Sizes (es : Elems) : Type 0 where
  pairs : ℕ
  odd : num_elems es ≡ 2 * pairs + 3

IsPath-Sizes : {es : Elems} → IsPath es → Sizes es
IsPath-Sizes (one_edge a e b) = record { pairs = 0; odd = refl }
IsPath-Sizes (more a e h) =
    let s = IsPath-Sizes h in record { pairs = s.pairs + 1; odd = omega (arith, s.odd) }

IsPath-loop : {es : Elems} → IsPath es → path_loop es ≡ true
unfolding path_loop
IsPath-loop (one_edge a e b) = refl
IsPath-loop (more a e h) = IsPath-loop h

guard_false : (n k : ℕ) → n ≡ 2 * k + 3 → (ltb n 3 || not ((n - 1) % 2 == 0)) ≡ false
guard_false n k e = ground arith

IsPath-is_array_path : {es : Elems} → IsPath es → is_array_path es ≡ true
unfolding is_array_path
IsPath-is_array_path {es = es} h =
    let s = IsPath-Sizes h in rw (guard_false (num_elems es) s.pairs s.odd) (IsPath-loop h)

conjuncts :
    (a b x : Bool) → (if a && b then x else false) ≡ true → (a ≡ true) × (b ≡ true) × (x ≡ true)
conjuncts true true x h = (refl, refl, h)
conjuncts true false x h = absurd (cc h)
conjuncts false b x h = absurd (cc h)

-- what the loop accepts: a path, or one vertex
loop_cases :
    (es : Elems) → path_loop es ≡ true → ((a : Pairs) × (es ≡ cons (vertex a) nil)) ⊎ IsPath es
unfolding path_loop
loop_cases nil h = absurd (cc h)
loop_cases (cons v nil) h = let (a, e) = vertex_of v h in inl (a, ap (λ x. cons x nil) e)
loop_cases (cons v (cons e es)) h =
    let (iv, ie, rest) = conjuncts (is_vertex v) (is_edge e) (path_loop es) h in
    let (a, ev) = vertex_of v iv in
    let (b, ee) = edge_of e ie in
    inr (
      subst IsPath (ap (λ x. cons x (cons e es)) (sym ev)) (
        subst IsPath (ap (λ y. cons (vertex a) (cons y es)) (sym ee)) (elim (loop_cases es rest) [
          | inl (c, ew) ↦
              subst IsPath (ap (λ x. cons (vertex a) (cons (edge b) x)) (sym ew)) (one_edge a b c)
          | inr p ↦ more a b p
        ])))

long_enough :
    (n : ℕ) (x : Bool)
    → (if ltb n 3 || not ((n - 1) % 2 == 0) then false else x) ≡ true
    → (3 ≤ n) × (x ≡ true)
long_enough n x h = ground arith

is_array_path-long : (es : Elems) → is_array_path es ≡ true → IsPath es
unfolding is_array_path
is_array_path-long es h =
    let (size, loop) = long_enough (num_elems es) (path_loop es) h in
    elim (loop_cases es loop) [
      | inl (a, e) ↦ absurd (omega (arith, size, ap num_elems e))
      | inr p ↦ p
    ]

-- is_array_path accepts exactly the arrays that are paths: a vertex, and then an edge and a vertex
-- once or more often, and nothing else.
pub is_array_path-IsPath : (es : Elems) → (is_array_path es ≡ true) ↔ IsPath es
is_array_path-IsPath es = (is_array_path-long es, IsPath-is_array_path)
