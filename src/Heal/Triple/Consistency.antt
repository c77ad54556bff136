-- ===== src/Heal/Triple/Consistency.antt =====
-- SystemInConsistency (triple.go) against what it means for the entries of a triple to agree.
use ooc.Base.{
  ◌≡◌, ◌↔◌, ◌⊎◌, inl, inr, Bool, true, false, not, ◌&&◌, none, some, arith, is_some, All, All-imp,
  select, select-empty, length-select_zero, length, Option-cases, List, [], ◌∷◌,
}
use ooc.Cloud.{Node}
use ooc.Help.{node_ready}
use ooc.Heal.Triple.{
  NodeInfo, Triple, is_unready, lacks_node, lacks_instance, is_stale_crd, misses_crd,
  system_in_consistency,
}

-- Nothing at all, or an instance with a resource and a ready node.
abbrev pub IsSettled : NodeInfo → Type 0
IsSettled i =
    ((i.instance_of ≡ none) × (i.node ≡ none) × (i.resource ≡ none))
    ⊎ ((n : Node) × (i.node ≡ some n)
        × (node_ready n ≡ true)
        × (is_some i.instance_of ≡ true)
        × (is_some i.resource ≡ true))

abbrev lacks_crd : NodeInfo → Bool
lacks_crd i = is_some i.instance_of && not (is_some i.resource)

abbrev only_crd : NodeInfo → Bool
only_crd i = not (is_some i.instance_of) && is_some i.resource

-- The entry passes none of the tests by which the differences are collected.
abbrev IsQuiet : NodeInfo → Type 0
IsQuiet i =
    (is_unready i ≡ false)
    × (lacks_crd i ≡ false)
    × (only_crd i ≡ false)
    × (lacks_node i ≡ false)
    × (lacks_instance i ≡ false)
    × (is_stale_crd i ≡ false)
    × (misses_crd i ≡ false)

IsQuiet-IsSettled : (i : NodeInfo) → IsQuiet i → IsSettled i
unfolding is_unready lacks_node lacks_instance is_stale_crd misses_crd
IsQuiet-IsSettled i h = elim (Option-cases i.node) [
  | inl gone ↦ inl (ground arith, gone, ground arith)
  | inr (n, found) ↦ inr (n, found, ground arith, ground arith, ground arith)
]

IsSettled-IsQuiet : (i : NodeInfo) → IsSettled i → IsQuiet i
unfolding is_unready lacks_node lacks_instance is_stale_crd misses_crd
IsSettled-IsQuiet i h = ground arith

IsQuiet-zip :
    (infos : List NodeInfo)
    → All (λ i. is_unready i ≡ false) infos
    → All (λ i. lacks_crd i ≡ false) infos
    → All (λ i. only_crd i ≡ false) infos
    → All (λ i. lacks_node i ≡ false) infos
    → All (λ i. lacks_instance i ≡ false) infos
    → All (λ i. is_stale_crd i ≡ false) infos
    → All (λ i. misses_crd i ≡ false) infos
    → All IsQuiet infos
IsQuiet-zip [] a b c d e f g = tt
IsQuiet-zip (i ∷ is) a b c d e f g =
    ((a.0, b.0, c.0, d.0, e.0, f.0, g.0), IsQuiet-zip is a.1 b.1 c.1 d.1 e.1 f.1 g.1)

consistent-IsQuiet : (t : Triple) → system_in_consistency t ≡ true → All IsQuiet t.node_info
unfolding system_in_consistency
consistent-IsQuiet t h =
    let infos = t.node_info in
    IsQuiet-zip infos (select-empty is_unready infos (ground arith))
      (select-empty lacks_crd infos (ground arith)) (select-empty only_crd infos (ground arith))
      (select-empty lacks_node infos (ground arith))
      (select-empty lacks_instance infos (ground arith))
      (select-empty is_stale_crd infos (ground arith))
      (select-empty misses_crd infos (ground arith))

module _ (infos : List NodeInfo) (quiet : All IsQuiet infos) where
  none_selected :
      (p : NodeInfo → Bool)
      → ((i : NodeInfo) → IsQuiet i → p i ≡ false)
      → length (select p infos) ≡ 0
  none_selected p f = length-select_zero p infos (All-imp IsQuiet (λ i. p i ≡ false) infos f quiet)

IsQuiet-consistent : (t : Triple) → All IsQuiet t.node_info → system_in_consistency t ≡ true
unfolding system_in_consistency
IsQuiet-consistent t q =
    let infos = t.node_info in
    ground (
      arith,
      none_selected infos q is_unready (λ i h. h.0),
      none_selected infos q lacks_crd (λ i h. h.1),
      none_selected infos q only_crd (λ i h. h.2),
      none_selected infos q lacks_node (λ i h. h.3),
      none_selected infos q lacks_instance (λ i h. h.4),
      none_selected infos q is_stale_crd (λ i h. h.5),
      none_selected infos q misses_crd (λ i h. h.6),
    )

-- SystemInConsistency is true exactly if every entry has nothing at all, or an instance, a resource
-- and a ready node.
pub system_in_consistency_iff :
    (t : Triple) → (system_in_consistency t ≡ true) ↔ All IsSettled t.node_info
system_in_consistency_iff t = (
  λ h. All-imp IsQuiet IsSettled t.node_info IsQuiet-IsSettled (consistent-IsQuiet t h),
  λ h. IsQuiet-consistent t (All-imp IsSettled IsQuiet t.node_info IsSettled-IsQuiet h),
)
