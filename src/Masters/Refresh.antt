-- ===== src/Masters/Refresh.antt =====
-- What AddMasters (master.go) leaves in the cache.
use ooc.Base.{
  String, ◌≡◌, ◌≢◌, refl, Bool, true, false, Option, none, some, List, [], ◌∷◌, arith, str_eq,
  eq_iff, if◌then◌else◌, any, select, Any, inl, inr, Bool-cases, ◌∙◌, ap, subst, sym, Option-cases,
}
use ooc.Cloud.{Master}
use ooc.Masters.{
  Cache, Entry, registered, cached, load_key, store_key, add_master, remove_master, get_masters,
  remove_gone, add_all, add_masters,
}

-- Every master that is stored by value stands under its name, as AddMaster stores it, and no key
-- stands twice, as in a sync.Map.
abbrev pub IsKeyed : Cache → Type 0
IsKeyed [] = Unit {0}
IsKeyed ((k, registered n) ∷ rest) = (load_key k rest ≡ none) × IsKeyed rest
IsKeyed ((k, cached m) ∷ rest) = (k ≡ m.name) × (load_key k rest ≡ none) × IsKeyed rest

-- an entry that is no master
abbrev pub registration : Option Entry → Option Entry
registration (some (registered n)) = some (registered n)
registration _ = none

-- The last of the masters with a name.
abbrev pub newest : String → List Master → Option Master
newest k [] = none
newest k (m ∷ ms) = elim (newest k ms) [
  | some x ↦ some x
  | none ↦ if str_eq m.name k then some m else none
]

abbrev pub or_else : Option Master → Option Entry → Option Entry
or_else (some x) o = some (cached x)
or_else none o = o

pub load-store_same :
    {A : Type 0} (k : String) (m : A) (c : List (String × A))
    → load_key k (store_key k m c) ≡ some m
unfolding load_key store_key
load-store_same k m [] = let same = (eq_iff k k).1 refl in ground arith
load-store_same k m ((j, n) ∷ c) =
    let same = (eq_iff k k).1 refl in let ih = load-store_same k m c in ground arith

load-store_other :
    (k j : String) (m : Entry) (c : Cache)
    → str_eq j k ≡ false
    → load_key k (store_key j m c) ≡ load_key k c
unfolding load_key store_key
load-store_other k j m [] h = ground arith
load-store_other k j m ((l, n) ∷ c) h = elim (Bool-cases (str_eq l j)) [
  | inl same ↦
      let name = (eq_iff l j).0 same in let differ : str_eq l k ≡ false = rw name h in ground arith
  | inr other ↦ let ih = load-store_other k j m c h in ground arith
]

load-add_master :
    (k : String) (m : Master) (c : Cache)
    → load_key k (add_master m c) ≡ (if str_eq m.name k then some (cached m) else load_key k c)
unfolding add_master
load-add_master k m c = elim (Bool-cases (str_eq m.name k)) [
  | inl same ↦
      let name = (eq_iff m.name k).0 same in
      rw same (
        subst (λ j. load_key j (store_key m.name (cached m) c) ≡ some (cached m)) name
          (load-store_same m.name (cached m) c))
  | inr other ↦ rw other (load-store_other k m.name (cached m) c other)
]

newest_step :
    (o : Option Master) (b : Bool) (m : Master) (l : Option Entry)
    → or_else o (if b then some (cached m) else l)
      ≡ or_else (elim o [ some x ↦ some x | none ↦ if b then some m else none ]) l
newest_step (some x) b m l = refl
newest_step none true m l = refl
newest_step none false m l = refl

load-add_all :
    (k : String) (ms : List Master) (c : Cache)
    → load_key k (add_all ms c) ≡ or_else (newest k ms) (load_key k c)
unfolding add_all
load-add_all k [] c = refl
load-add_all k (m ∷ ms) c =
    load-add_all k ms (add_master m c)
    ∙ ap (or_else (newest k ms)) (load-add_master k m c)
    ∙ newest_step (newest k ms) (str_eq m.name k) m (load_key k c)

load-remove_same : (k : String) (c : Cache) → load_key k (remove_master k c) ≡ none
unfolding load_key remove_master select
load-remove_same k [] = refl
load-remove_same k ((j, n) ∷ c) = let ih = load-remove_same k c in ground arith

load-remove_none :
    (k j : String) (c : Cache) → load_key k c ≡ none → load_key k (remove_master j c) ≡ none
unfolding load_key remove_master select
load-remove_none k j [] h = refl
load-remove_none k j ((l, n) ∷ c) h = elim (Bool-cases (str_eq l k)) [
  | inl same ↦ ground arith
  | inr other ↦ let ih = load-remove_none k j c (ground arith) in ground arith
]

gone_stays :
    (k : String) (ms gs : List Master) (c : Cache)
    → load_key k c ≡ none
    → load_key k (remove_gone ms gs c) ≡ none
unfolding remove_gone
gone_stays k ms [] c h = h
gone_stays k ms (g ∷ gs) c h = elim (Bool-cases (any (λ (m : Master). str_eq g.name m.name) ms)) [
  | inl found ↦ rw found (gone_stays k ms gs c h)
  | inr lost ↦ rw lost (gone_stays k ms gs _ (load-remove_none k g.name c h))
]

newest_none :
    (o : Option Master) (b : Bool) (m : Master)
    → elim o as (λ _. Option Master) [ some x ↦ some x | none ↦ if b then some m else none ] ≡ none
    → (o ≡ none) × (b ≡ false)
newest_none (some x) b m h = cc
newest_none none true m h = cc
newest_none none false m h = (refl, refl)

differ_sym : (a b : String) → str_eq a b ≡ false → str_eq b a ≡ false
differ_sym a b h = elim (Bool-cases (str_eq b a)) [
  | inl same ↦ let back = (eq_iff a b).1 (sym ((eq_iff b a).0 same)) in cc
  | inr other ↦ other
]

not_listed :
    (k : String) (ms : List Master)
    → newest k ms ≡ none
    → any (λ (m : Master). str_eq k m.name) ms ≡ false
unfolding any
not_listed k [] h = refl
not_listed k (m ∷ ms) h =
    let (rest, head) = newest_none (newest k ms) (str_eq m.name k) m h in
    let ih = not_listed k ms rest in let apart = differ_sym m.name k head in ground arith

found_cached :
    (k : String) (m : Master) (c : Cache)
    → IsKeyed c
    → load_key k c ≡ some (cached m)
    → Any (λ (g : Master). g.name ≡ k) (get_masters c)
unfolding load_key get_masters
found_cached k m [] keyed h = absurd (cc)
found_cached k m ((j, registered n) ∷ c) keyed h = elim (Bool-cases (str_eq j k)) [
  | inl same ↦ absurd (cc (rw same at h))
  | inr other ↦ found_cached k m c keyed.1 (rw other at h)
]
found_cached k m ((j, cached n) ∷ c) keyed h = elim (Bool-cases (str_eq j k)) [
  | inl same ↦ inl (sym keyed.0 ∙ (eq_iff j k).0 same)
  | inr other ↦ inr (found_cached k m c keyed.2 (rw other at h))
]

no_master :
    (k : String) (c : Cache)
    → IsKeyed c
    → ((m : Master) → load_key k c ≢ some (cached m))
    → any (λ (g : Master). str_eq g.name k) (get_masters c) ≡ false
unfolding load_key get_masters any
no_master k [] keyed h = refl
no_master k ((j, registered n) ∷ c) keyed h = elim (Bool-cases (str_eq j k)) [
  | inl same ↦
      let twice = subst (λ i. load_key i c ≡ none) ((eq_iff j k).0 same) keyed.0 in
      no_master k c keyed.1 (λ m here. absurd (cc))
  | inr other ↦ no_master k c keyed.1 (λ m here. h m (rw other here))
]
no_master k ((j, cached n) ∷ c) keyed h = elim (Bool-cases (str_eq j k)) [
  | inl same ↦ absurd (h n (rw same refl))
  | inr other ↦
      let apart : str_eq n.name k ≡ false = subst (λ i. str_eq i k ≡ false) keyed.0 other in
      rw apart (no_master k c keyed.2 (λ m here. h m (rw other here)))
]

load-remove_other :
    (k j : String) (c : Cache) → str_eq j k ≡ false → load_key k (remove_master j c) ≡ load_key k c
unfolding load_key remove_master select
load-remove_other k j [] h = refl
load-remove_other k j ((l, n) ∷ c) h = elim (Bool-cases (str_eq l j)) [
  | inl same ↦
      let apart : str_eq l k ≡ false = rw ((eq_iff l j).0 same) h in
      rw (same, apart) (load-remove_other k j c h)
  | inr other ↦ let ih = load-remove_other k j c h in ground arith
]

kept :
    (k : String) (ms gs : List Master) (c : Cache)
    → any (λ (g : Master). str_eq g.name k) gs ≡ false
    → load_key k (remove_gone ms gs c) ≡ load_key k c
unfolding remove_gone any
kept k ms [] c h = refl
kept k ms (g ∷ gs) c h = elim (Bool-cases (any (λ (m : Master). str_eq g.name m.name) ms)) [
  | inl found ↦ rw found (kept k ms gs c (ground arith))
  | inr lost ↦ rw lost (kept k ms gs _ (ground arith) ∙ load-remove_other k g.name c (ground arith))
]

removed :
    (k : String) (ms gs : List Master) (c : Cache)
    → newest k ms ≡ none
    → Any (λ (g : Master). g.name ≡ k) gs
    → load_key k (remove_gone ms gs c) ≡ none
unfolding remove_gone
removed k ms [] c gone here = absurd here
removed k ms (g ∷ gs) c gone (inl name) =
    let lost =
      subst (λ n. any (λ (m : Master). str_eq n m.name) ms ≡ false) (sym name)
        (not_listed k ms gone) in
    rw lost (
      gone_stays k ms gs _
        (subst (λ n. load_key k (remove_master n c) ≡ none) (sym name) (load-remove_same k c)))
removed k ms (g ∷ gs) c gone (inr later) = removed k ms gs _ gone later

after_removal :
    (k : String) (ms : List Master) (c : Cache) (o : Option Entry)
    → IsKeyed c
    → newest k ms ≡ none
    → load_key k c ≡ o
    → load_key k (remove_gone ms (get_masters c) c) ≡ registration o
after_removal k ms c none keyed gone h = gone_stays k ms (get_masters c) c h
after_removal k ms c (some (registered n)) keyed gone h =
    kept k ms (get_masters c) c (no_master k c keyed (λ m here. absurd (cc))) ∙ h
after_removal k ms c (some (cached m)) keyed gone h =
    removed k ms (get_masters c) c gone (found_cached k m c keyed h)

-- If the masters of the cache stand under their names and no key stands twice, then AddMasters makes the
-- masters of the cache agree with the list that it is given: under every name is the last master of the
-- list with that name. If there is none, then no master is under the name; a node that has registered
-- under it stays.
pub load-add_masters :
    (k : String) (ms : List Master) (cache : Cache)
    → IsKeyed cache
    → load_key k (add_masters cache ms) ≡ or_else (newest k ms) (registration (load_key k cache))
unfolding add_masters
load-add_masters k ms cache keyed = elim (Option-cases (newest k ms)) [
  | inl gone ↦
      load-add_all k ms _
      ∙ ap (or_else (newest k ms)) (after_removal k ms cache (load_key k cache) keyed gone refl)
  | inr (m, listed) ↦ load-add_all k ms _ ∙ rw listed refl
]
