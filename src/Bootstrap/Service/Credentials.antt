-- ===== src/Bootstrap/Service/Credentials.antt =====
-- What the bootstrap service answers to a machine that has registered.
use ooc.Base.{
  ℕ, ◌≤◌, String, ◌≡◌, refl, Bool, true, false, not, ◌||◌, ◌==◌, Option, none, some, List, [], ◌∷◌,
  arith, str_eq, if◌then◌else◌, All, Any, ◌∙◌, subst, inl, inr, Bool-cases, ap, join, text_length,
  text_length-join, text_length-join_tail,
}
use ooc.Cloud.Exec.{Outcome, ok, panic, answer}
use ooc.Masters.{Entry, registered, cached, Cache, load_key}
use ooc.Masters.Refresh.{load-store_same}
use ooc.Bootstrap.{NodeObject, BootCluster, WdripOptions}
use ooc.Bootstrap.Coordinator.{is_enough}
use ooc.Bootstrap.Service.{
  Service, resource_of, Response, stamped, validate, admit, register_node, runs_etcd, Found,
  add_entry, gather, hand_out, answer_found, credentials,
}

abbrev pub IsCached : String × Entry → Type 0
IsCached (k, registered n) = ⊥
IsCached (k, cached m) = Unit

abbrev pub IsRegistered : String × Entry → Type 0
IsRegistered (k, registered n) = Unit
IsRegistered (k, cached m) = ⊥

add-panic :
    (id k : String) (n : NodeObject) (o : Outcome Found) → o ≡ panic → add_entry id k n o ≡ panic
unfolding add_entry
add-panic id k n o h = rw h refl

gather-panic : (id : String) (ns : Cache) → Any IsCached ns → gather id ns ≡ panic
unfolding gather
gather-panic id [] h = absurd h
gather-panic id ((k, cached m) ∷ ns) h = refl
gather-panic id ((k, registered n) ∷ ns) (inl h) = absurd h
gather-panic id ((k, registered n) ∷ ns) (inr h) =
    add-panic id k n (gather id ns) (gather-panic id ns h)

-- Credentials, asked with an id, panics as soon as the cache holds one master that the operator has
-- stored, whatever else is in it.
pub credentials-panics :
    (order : Cache → Cache) (now : ℕ) (id : String) (s : Service)
    → str_eq id "" ≡ false
    → Any IsCached (order s.nodes)
    → credentials order now id s ≡ panic
unfolding credentials answer_found
credentials-panics order now id s named h = rw (named, gather-panic id (order s.nodes) h) refl

-- An entry is a machine with etcd, and its address has at least `k` characters.
abbrev pub IsEtcdOf : ℕ → String × Entry → Type 0
IsEtcdOf k (id, registered n) = (runs_etcd n.resource.role ≡ true) × (k ≤ text_length n.resource.ip)
IsEtcdOf k (id, cached m) = ⊥

chosen :
    (b : Bool) (m n : NodeObject) (rest : Option Entry) (found : Option NodeObject)
    → (if b then some (registered m) else rest) ≡ some (registered n)
    → (rest ≡ some (registered n) → found ≡ some n)
    → (if b then some m else found) ≡ some n
chosen true m n rest found h later = cc
chosen false m n rest found h later = later h

longer :
    (b : Bool) (k : ℕ) (ip : String) (address : List String)
    → (b ≡ true) × (k ≤ text_length ip)
    → k ≤ text_length (join "," (if b then ip ∷ address else address))
longer true k ip address h = omega (arith, h.1, text_length-join ip address)
longer false k ip address h = cc

no_shorter :
    (b : Bool) (k : ℕ) (ip : String) (address : List String)
    → k ≤ text_length (join "," address)
    → k ≤ text_length (join "," (if b then ip ∷ address else address))
no_shorter true k ip address h = omega (arith, h, text_length-join_tail ip address)
no_shorter false k ip address h = h

gather-finds :
    (id : String) (n : NodeObject) (k : ℕ) (ns : Cache)
    → All IsRegistered ns
    → (f : Found) × (gather id ns ≡ ok f)
      × (load_key id ns ≡ some (registered n) → f.0 ≡ some n)
      × (Any (IsEtcdOf k) ns → k ≤ text_length (join "," f.1))
unfolding gather add_entry load_key
gather-finds id n k [] h = ((none, []), refl, (λ e. cc), (λ a. absurd a))
gather-finds id n k ((j, cached m) ∷ ns) h = absurd h.0
gather-finds id n k ((j, registered m) ∷ ns) h =
    let ((found, address), e, look, long) = gather-finds id n k ns h.1 in
    (
      (
        if str_eq j id then some m else found,
        if runs_etcd m.resource.role then m.resource.ip ∷ address else address,
      ),
      ap (add_entry id j m) e,
      (λ l. chosen (str_eq j id) m n (load_key id ns) found l look),
      (λ a. elim a [
        | inl here ↦ longer (runs_etcd m.resource.role) k m.resource.ip address here
        | inr there ↦ no_shorter (runs_etcd m.resource.role) k m.resource.ip address (long there)
      ]),
    )

-- validate lets the node pass
abbrev pub IsNamed : NodeObject → Type 0
IsNamed n =
    (str_eq n.resource.name "" ≡ false)
    × (str_eq n.resource.id "" ≡ false)
    × (str_eq n.resource.ip "" ≡ false)

validate-passes :
    (now : ℕ) (n : NodeObject)
    → IsNamed n
    → validate now n ≡ (record n { created = stamped now n.created }, none)
unfolding validate
validate-passes now n (name, id, ip) = rw (name, id, ip) refl

abbrev pub IsHandedOut : NodeObject → Response → Type 0
IsHandedOut n r =
    (r.code ≡ 200) × (boot : BootCluster) × (r.body ≡ resource_of (record n { boot = some boot }))

stamped-twice : (now later : ℕ) (o : Option ℕ) → stamped later (stamped now o) ≡ stamped now o
unfolding stamped
stamped-twice now later none = refl
stamped-twice now later (some x) = refl

abbrev pub HandsOut : Outcome (Response × Service) → NodeObject → Type 0
HandsOut o n = (r : Response) × (s : Service) × (o ≡ ok (r, s)) × IsHandedOut n r

-- the answer carries the addresses
abbrev Handed : Outcome (Response × Service) → NodeObject → List String → Type 0
Handed o n address =
    (s : Service) × (boot : BootCluster) × (o
      ≡ ok (record { code = 200; body = resource_of (record n { boot = some boot }) }, s))
    × (boot.spec.endpoints ≡ join "," address)

found-Handed :
    (now : ℕ) (id : String) (s : Service) (o : Outcome Found) (n : NodeObject)
    (address : List String)
    → o ≡ ok (some n, address)
    → IsNamed n
    → Handed (answer_found now id s o) (record n { created = stamped now n.created }) address
unfolding answer_found hand_out
found-Handed now id s o n address e named = (
  _,
  _,
  ap (answer_found now id s) e
      ∙ ap (λ v. ok (hand_out id address s v)) (validate-passes now n named),
  refl,
)

credentials-Handed :
    (order : Cache → Cache) (now : ℕ) (n : NodeObject) (s : Service) (k : ℕ)
    → IsNamed n
    → All IsRegistered (order s.nodes)
    → load_key n.resource.id (order s.nodes) ≡ some (registered n)
    → (address : List String) × Handed
        (credentials order now n.resource.id s)
        (record n { created = stamped now n.created })
        address
      × (Any (IsEtcdOf k) (order s.nodes) → k ≤ text_length (join "," address))
unfolding credentials
credentials-Handed order now n s k named all there =
    let (f, e, look, long) = gather-finds n.resource.id n k (order s.nodes) all in
    let found : gather n.resource.id (order s.nodes) ≡ ok (some n, f.1) =
      e ∙ ap {B = Outcome Found} (λ o. ok (o, f.1)) (look there) in
    (f.1, rw named.1 (found-Handed now n.resource.id s _ n f.1 found named), long)

register_node-stores :
    (now : ℕ) (n : NodeObject) (s : Service)
    → IsNamed n
    → load_key n.resource.id (register_node now (answer n) s).1.nodes
      ≡ some (registered (record n { created = stamped now n.created }))
unfolding register_node admit
register_node-stores now n s named = rw (validate-passes now n named) (
    load-store_same n.resource.id (registered (record n { created = stamped now n.created }))
      s.nodes)

-- A machine that has registered with a name, an id and an address gets itself back from Credentials,
-- with the time of its registration and a boot configuration, if the cache holds registered machines
-- only and Range, in whatever order, visits the entry.
pub register_node-credentials :
    (order : Cache → Cache) (now later : ℕ) (n : NodeObject) (s : Service)
    → IsNamed n
    → All IsRegistered (order (register_node now (answer n) s).1.nodes)
    → load_key n.resource.id (order (register_node now (answer n) s).1.nodes)
      ≡ load_key n.resource.id (register_node now (answer n) s).1.nodes
    → HandsOut
        (credentials order later n.resource.id (register_node now (answer n) s).1)
        (record n { created = stamped now n.created })
register_node-credentials order now later n s named all visits =
    subst
      (λ time.
        HandsOut (credentials order later n.resource.id (register_node now (answer n) s).1)
          (record n { created = time }))
      (stamped-twice now later n.created)
      (let (address, (s', boot, e, text), long) =
          credentials-Handed order later (record n { created = stamped now n.created })
            (register_node now (answer n) s).1 0 named all
            (visits ∙ register_node-stores now n s named) in
        (_, s', e, (refl, boot, refl)))

enough :
    (flags : WdripOptions) (n : NodeObject) (boot : BootCluster)
    → n.boot ≡ some boot
    → flags.expected_master_cnt ≤ text_length boot.spec.endpoints
    → is_enough flags n ≡ some true
unfolding is_enough
enough flags n boot e h =
    elim (Bool-cases (not (str_eq flags.role "Master") || (flags.expected_master_cnt == 0))) [
      | inl free ↦ rw free refl
      | inr bound ↦ rw (bound, e) (ap some (ground (arith, h)))
    ]

-- SetBootCredential takes the first answer that it gets from Credentials as soon as one machine with
-- etcd has registered whose address has as many characters as masters are expected: it compares the
-- length of the text of all addresses with their number.
pub credentials-is_enough :
    (order : Cache → Cache) (now : ℕ) (flags : WdripOptions) (n : NodeObject) (s : Service)
    → IsNamed n
    → All IsRegistered (order s.nodes)
    → load_key n.resource.id (order s.nodes) ≡ some (registered n)
    → Any (IsEtcdOf flags.expected_master_cnt) (order s.nodes)
    → (r : Response) × (s' : Service) × (m : NodeObject) × (credentials order now n.resource.id s
        ≡ ok (r, s'))
      × (r.body ≡ resource_of m)
      × (is_enough flags m ≡ some true)
credentials-is_enough order now flags n s named all there etcd =
    let (address, (s', boot, e, text), long) =
      credentials-Handed order now n s flags.expected_master_cnt named all there in
    (_, s', _, e, refl, enough flags _ boot refl (rw text (long etcd)))
