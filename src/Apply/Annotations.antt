-- ===== src/Apply/Annotations.antt =====
-- The annotation that keeps the applied configuration.
use ooc.Base.{
  String, ◌≡◌, refl, true, Option, none, some, List, [], ◌∷◌, str_eq, if◌then◌else◌, eq_iff, ap,
  sym, ◌∙◌, arith,
}
use ooc.Cloud.{Error}
use ooc.Cloud.Exec.{Trace, ok, answer, Exec, pure, catch, ◌>>=◌}
use ooc.Cloud.Exec.Triple.{
  Triple, Triple-pure, Triple-fail, Triple-reply, Triple-bind, Triple-value,
}
use ooc.Clusters.{given}
use ooc.Masters.{load_key, store_key}
use ooc.Apply.{
  Object, Kubectl, check_error, or_empty, text_or_empty, remove_key, set_annotations, get_modified,
  get_original, last_applied,
}

load-remove :
    {A : Type 0} (j k : String) (m : List (String × A))
    → load_key j (remove_key k m) ≡ (if str_eq k j then none else load_key j m)
unfolding load_key remove_key
load-remove j k [] = ground arith
load-remove j k ((i, a) ∷ m) = ground (arith, eq_iff i k, eq_iff i j, eq_iff k j, load-remove j k m)

load-store :
    {A : Type 0} (j k : String) (a : A) (m : List (String × A))
    → load_key j (store_key k a m) ≡ (if str_eq k j then some a else load_key j m)
unfolding load_key store_key
load-store j k a [] = refl
load-store j k a ((i, b) ∷ m) =
    ground (arith, eq_iff i k, eq_iff i j, eq_iff k j, load-store j k a m)

load-restored :
    {A : Type 0} (j k : String) (a : A) (m : List (String × A))
    → load_key j (store_key k a (remove_key k m)) ≡ (if str_eq k j then some a else load_key j m)
load-restored j k a m = ground (arith, load-store j k a (remove_key k m), load-remove j k m)

load-put_back :
    {A : Type 0} (j k : String) (a b : A) (m : List (String × A))
    → load_key j (store_key k a (store_key k b (remove_key k m)))
      ≡ (if str_eq k j then some a else load_key j m)
load-put_back j k a b m =
    ground (arith, load-store j k a (store_key k b (remove_key k m)), load-restored j k b m)

abbrev pub annotation : Object → String → Option String
annotation obj j = load_key j (or_empty obj.annotations)

-- The two objects differ in their annotations at most.
abbrev pub IsSameBut : Object → Object → Type 0
IsSameBut o obj = (o.namespace ≡ obj.namespace) × (o.name ≡ obj.name) × (o.body ≡ obj.body)

-- What GetModifiedConfiguration sent to the codec and left behind.
pub record IsModified (k : Kubectl) (obj : Object) (r : String × Object) (plain : String)
    (full : Object) : Type 0 where
  pub encoded : k.encode full ≡ answer r.0
  pub same : IsSameBut full obj × IsSameBut r.1 obj
  pub readable : k.accessor full ≡ none
  pub applied :
      (j : String)
      → annotation full j ≡ (if str_eq last_applied j then some plain else annotation obj j)
  pub bare :
      (o : Object) × (k.encode o ≡ answer plain)
      × IsSameBut o obj
      × ((j : String) → annotation o j ≡ (if str_eq last_applied j then none else annotation obj j))
  pub left :
      (j : String)
      → annotation r.1 j ≡ (
          if str_eq last_applied j
          then some (text_or_empty (annotation obj last_applied))
          else annotation obj j)

module _ (k : Kubectl) where
  abbrev Gives : {A : Type 0} → (A → Type 0) → Exec A → Type 0
  Gives {A} Q m = Triple {A = A} (λ _. Unit {0}) (λ a _. Q a) (λ _ _. Unit {0}) (λ _. Unit {0}) m

  Gives-bind :
      {A B : Type 0} {Q : A → Type 0} {R : B → Type 0} (m : Exec A) (g : A → Exec B)
      → Gives Q m
      → ((a : A) → Q a → Gives R (g a))
      → Gives R (m >>= g)
  Gives-bind m g km kg = Triple-bind m g km (λ a. record { at = λ t q. Triple.at (kg a q) t tt })

  check-Gives : (o : Option Error) → Gives (λ _. o ≡ none) (check_error o)
  unfolding check_error
  check-Gives none = Triple-pure tt (λ t _. refl)
  check-Gives (some e) = Triple-fail e (λ t _. tt)

  set-Gives :
      (obj : Object) (annots : List (String × String))
      → Gives
          (λ o. (o ≡ record obj { annotations = some annots }) × (k.accessor o ≡ none))
          (set_annotations k obj annots)
  unfolding set_annotations
  set-Gives obj annots =
      Triple-bind {R = λ _ _. k.accessor (record obj { annotations = some annots }) ≡ none} _ _
        (check-Gives _) (λ _. Triple-pure _ (λ t h. (refl, h)))

  encoded-Gives :
      (obj : Object) (annots : List (String × String))
      → Gives
          (λ text.
            let o = record obj { annotations = some annots } in
            (k.encode o ≡ answer text) × (k.accessor o ≡ none))
          (set_annotations k obj annots >>= λ obj'. given (k.encode obj'))
  unfolding given
  encoded-Gives obj annots = Triple-bind _ _ (set-Gives obj annots) (λ o.
      Triple-reply (k.encode o)
        (λ t a h q. (ap k.encode (sym h.0) ∙ q, ap k.accessor (sym h.0) ∙ h.1)) (λ t e _ _. tt))

  get_modified-Gives :
      (obj : Object)
      → Gives
          (λ r. (plain : String) × (full : Object) × IsModified k obj r plain full)
          (get_modified k true obj)
  unfolding get_modified
  get_modified-Gives obj =
      let annots = or_empty obj.annotations in
      Gives-bind _ _ (check-Gives _) (λ _ _.
        Gives-bind _ _ (encoded-Gives obj (remove_key last_applied annots)) (λ plain hp.
          Gives-bind _ _
            (encoded-Gives obj (store_key last_applied plain (remove_key last_applied annots)))
            (λ modified hm. Gives-bind _ _ (set-Gives obj _) (λ o ho. Triple-pure _ (λ t _. (
              plain,
              record obj {
                annotations = some (store_key last_applied plain (remove_key last_applied annots));
              },
              record {
                encoded = hm.0;
                same = (
                  (refl, refl, refl),
                  (
                    ap (λ (x : Object). x.namespace) ho.0,
                    ap (λ (x : Object). x.name) ho.0,
                    ap (λ (x : Object). x.body) ho.0,
                  ),
                );
                readable = hm.1;
                applied = λ j. load-restored j last_applied plain annots;
                bare = (
                  record obj { annotations = some (remove_key last_applied annots) },
                  hp.0,
                  (refl, refl, refl),
                  λ j. load-remove j last_applied annots,
                );
                left = λ j.
                    ap (λ (x : Object). annotation x j) ho.0
                    ∙ load-put_back j last_applied (text_or_empty (load_key last_applied annots))
                        plain annots;
              },
            ))))))

original_of :
    (k : Kubectl) (full : Object) (plain : String) (t : Trace)
    → k.accessor full ≡ none
    → annotation full last_applied ≡ some plain
    → get_original k full t ≡ (ok (some plain), t)
unfolding get_original check_error ◌>>=◌ catch pure
original_of k full plain t readable applied = rw (readable, applied)

-- If GetModifiedConfiguration returns a text, it is the encoding of an object from which
-- GetOriginalConfiguration reads the encoding of the object without the annotation of the last
-- configuration. Both have the namespace, the name, the body and all other annotations of the object,
-- and the object is left with these and with the annotation that it had, or with an empty one if it had
-- none.
pub get_original-get_modified :
    (k : Kubectl) (obj : Object) (t t' : Trace) (r : String × Object)
    → (get_modified k true obj t).0 ≡ ok r
    → (plain : String) × (full : Object) × IsModified k obj r plain full
      × (get_original k full t' ≡ (ok (some plain), t'))
get_original-get_modified k obj t t' r h =
    let (plain, full, m) =
      Triple-value
        (λ (r' : String × Object) _.
          (plain : String) × (full : Object) × IsModified k obj r' plain full)
        (get_modified k true obj) (get_modified-Gives k obj) t r tt h in
    (plain, full, m, original_of k full plain t' m.readable (m.applied last_applied))
