-- ===== src/Util/Roots.antt =====
-- internal/util/util.go `FindClosestMatchingRoot`: the root of a project that a path belongs to.
mod Tests
use regal.Base.{
  ℕ, zero, suc, ◌+◌, ◌≤◌, ◌≡◌, refl, sym, ◌∙◌, subst, ◌⊎◌, inl, inr, true, not, Option, none, some,
  List, [], ◌∷◌, ◌++◌, append_assoc, append-nil, arith, ltb, if◌then◌else◌, Bool-cases, length,
  get_elem?, length-append, ◌==◌, eq_iff, contains, contains-append, Text, text_eq, nat_eq,
}
use native.Mathlib.Nat.{le_trans}
use regal.Go.Slices.{get_elem?-append}
use regal.Go.Strings.{has_prefix, has_prefix-append, has_prefix-le}

-- `roots[longestPrefixIndex]`; the index is one of the list's.
root_at : List Text → Option ℕ → Text
root_at roots none = []
root_at roots (some n) = elim (get_elem? roots n) [ none ↦ [] | some r ↦ r ]

-- The loop at index `i`, with the variables `currentLongestPrefix` and `longestPrefixIndex`.
search_roots : Text → (all roots : List Text) → (i longest : ℕ) → Option ℕ → Text
unfolding root_at
search_roots path all [] i longest at = root_at all at
search_roots path all (root ∷ roots) i longest at =
    let skip = search_roots path all roots (i + 1) longest at in
    let take_it = search_roots path all roots (i + 1) (length root) (some i) in
    if root == path
    then path
    else if not (has_prefix path root)
    then skip
    else if ltb longest (length root)
    then take_it
    else skip

unfoldable pub find_closest_matching_root : Text → List Text → Text
unfolding search_roots
find_closest_matching_root path roots = search_roots path roots roots 0 0 none

-- The answer is empty or a root that the path begins with, and no root that the path begins with is
-- longer.
pub record IsLongestRoot (path : Text) (roots : List Text) (r : Text) : Type 0 where
  pub among : (r ≡ []) ⊎ ((contains roots r ≡ true) × (has_prefix path r ≡ true))
  pub longest :
      (x : Text) → contains roots x ≡ true → has_prefix path x ≡ true → length x ≤ length r

contains-get_elem? :
    (roots : List Text) (n : ℕ) (r : Text) → get_elem? roots n ≡ some r → contains roots r ≡ true
unfolding contains
contains-get_elem? [] n r h = cc
contains-get_elem? (x ∷ roots) zero r h = ground (arith, eq_iff x r)
contains-get_elem? (x ∷ roots) (suc n) r h = ground (arith, contains-get_elem? roots n r)

-- What the index stands for: no root so far, or one that the path begins with.
abbrev Best : Text → List Text → ℕ → Option ℕ → Type 0
Best path all longest none = longest ≡ 0
Best path all longest (some n) =
    (r : Text) × (get_elem? all n ≡ some r) × (has_prefix path r ≡ true) × (length r ≡ longest)

has_prefix_self : (p : Text) → has_prefix p p ≡ true
unfolding has_prefix
has_prefix_self [] = refl
has_prefix_self (c ∷ p) = ground (arith, has_prefix_self p)

contains_head :
    (root : Text) (roots : List Text) (path : Text)
    → (root == path) ≡ true
    → contains (root ∷ roots) path ≡ true
unfolding contains
contains_head root roots path h = ground arith

module _ (path : Text) (all : List Text) where
  root_at-IsLongestRoot :
      (longest : ℕ) (at : Option ℕ)
      → Best path all longest at
      → ((x : Text) → contains all x ≡ true → has_prefix path x ≡ true → length x ≤ longest)
      → IsLongestRoot path all (root_at all at)
  unfolding root_at
  root_at-IsLongestRoot longest none b seen = record {
    among = inl refl;
    longest = λ x h p. omega (arith, seen x h p);
  }
  root_at-IsLongestRoot longest (some n) (r, found, prefix, same) seen =
      rw (found, root_at)
        (record {
          among = inr (contains-get_elem? all n r found, prefix);
          longest = λ x h p. omega (arith, seen x h p);
        })

  path_itself : contains all path ≡ true → IsLongestRoot path all path
  path_itself h = record {
    among = inr (h, has_prefix_self path);
    longest = λ x _ p. has_prefix-le path x p;
  }

  snoc_bound :
      (seen : List Text) (root : Text) (bound : ℕ) (x : Text)
      → (contains seen x ≡ true → has_prefix path x ≡ true → length x ≤ bound)
      → (has_prefix path root ≡ true → length root ≤ bound)
      → contains (seen ++ root ∷ []) x ≡ true
      → has_prefix path x ≡ true
      → length x ≤ bound
  unfolding contains
  snoc_bound seen root bound x h fits k p =
      ground (arith, contains-append seen (root ∷ []) x, eq_iff root x, h, fits)

  search_roots-IsLongestRoot :
      (seen roots : List Text) (longest : ℕ) (at : Option ℕ)
      → all ≡ seen ++ roots
      → Best path all longest at
      → ((x : Text) → contains seen x ≡ true → has_prefix path x ≡ true → length x ≤ longest)
      → IsLongestRoot path all (search_roots path all roots (length seen) longest at)
  unfolding search_roots
  search_roots-IsLongestRoot seen [] longest at e b h =
      root_at-IsLongestRoot longest at b
        (λ x k p. h x (subst (λ l. contains l x ≡ true) (e ∙ append-nil seen) k) p)
  search_roots-IsLongestRoot seen (root ∷ roots) longest at e b h =
      let next =
        λ (longest' : ℕ) (at' : Option ℕ) (b' : Best path all longest' at')
            (le : longest ≤ longest') (fits : has_prefix path root ≡ true → length root ≤ longest').
          subst (λ n. IsLongestRoot path all (search_roots path all roots n longest' at'))
            (length-append {0} seen (root ∷ []))
            (search_roots-IsLongestRoot (seen ++ root ∷ []) roots longest' at'
              (e ∙ sym (append_assoc seen (root ∷ []) roots)) b'
              (λ x k p.
                snoc_bound seen root longest' x (λ h' p'. le_trans (h x h' p') le) fits k p)) in
      elim (Bool-cases (root == path)) [
        | inl same ↦ rw same (
            path_itself (
              rw (e, contains-append seen (root ∷ roots) path)
                (ground (arith, contains_head root roots path))))
        | inr differ ↦ elim (Bool-cases (has_prefix path root)) [
          | inr apart ↦ rw (differ, apart) (next longest at b (omega arith) (λ p. cc))
          | inl prefix ↦ elim (Bool-cases (ltb longest (length root))) [
            | inl longer ↦
                rw (differ, prefix, longer)
                  (next (length root) (some (length seen))
                    (root, rw e (get_elem?-append seen root roots), prefix, refl) (ground arith)
                    (λ p. omega arith))
            | inr shorter ↦
                rw (differ, prefix, shorter) (next longest at b (omega arith) (λ p. ground arith))
          ]
        ]
      ]

-- The root found is the closest: empty or one that the path begins with, and no other root that
-- the path begins with is longer.
pub find_closest-IsLongestRoot :
    (path : Text) (roots : List Text)
    → IsLongestRoot path roots (find_closest_matching_root path roots)
unfolding find_closest_matching_root contains
find_closest-IsLongestRoot path roots =
    search_roots-IsLongestRoot path roots [] roots 0 none refl refl (λ x k p. cc)

-- A single root is found for every path whose text begins with it, so also for one in a sibling
-- directory whose name goes on where the root ends.
pub find_closest_sibling :
    (root rest : Text) → find_closest_matching_root (root ++ rest) (root ∷ []) ≡ root
unfolding find_closest_matching_root search_roots root_at
find_closest_sibling [] rest = ground (arith, eq_iff [] rest, has_prefix-append [] rest)
find_closest_sibling (c ∷ root) rest =
    ground (arith, eq_iff (c ∷ root) ((c ∷ root) ++ rest), has_prefix-append (c ∷ root) rest)
