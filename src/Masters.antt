-- ===== src/Masters.antt =====
-- CachedContext (pkg/context/credential.go), the masters that the bootstrap service knows, and
-- AddMasters (pkg/operator/controllers/master/master.go), which brings them up to date.
pub mod Refresh
use ooc.Base.{
  String, Bool, true, false, Option, none, some, List, [], ◌∷◌, map, str_eq, if◌then◌else◌, any,
  select, not,
}
use ooc.Bootstrap.{NodeObject}
use ooc.Cloud.{Master, Error, text, not_found, retry, conflict, invalid}
use ooc.Cloud.Exec.{Env, Exec, pure, fail, ask, catch, list_masters}

-- An entry of `Nodes`, a sync.Map: a master that AddMasters has stored by value, or a node that has
-- registered, by pointer.
pub data Entry : Type 0 where
  registered : NodeObject → Entry
  cached : Master → Entry

abbrev pub Cache : Type 0
Cache = List (String × Entry)

-- Load
unfoldable pub load_key : {A : Type 0} → String → List (String × A) → Option A
load_key k [] = none
load_key k ((j, m) ∷ rest) = if str_eq j k then some m else load_key k rest

-- SetKV
unfoldable pub store_key : {A : Type 0} → String → A → List (String × A) → List (String × A)
store_key k m [] = (k, m) ∷ []
store_key k m ((j, n) ∷ rest) = if str_eq j k then (k, m) ∷ rest else (j, n) ∷ store_key k m rest

unfoldable pub add_master : Master → Cache → Cache
unfolding store_key
add_master m cache = store_key m.name (cached m) cache

-- RemoveMaster
unfoldable pub remove_master : String → Cache → Cache
remove_master k cache = select (λ (e : String × Entry). not (str_eq e.0 k)) cache

-- GetMasters: the values that are masters
unfoldable pub get_masters : Cache → List Master
get_masters [] = []
get_masters ((k, registered n) ∷ rest) = get_masters rest
get_masters ((k, cached m) ∷ rest) = m ∷ get_masters rest

-- the first loop of AddMasters
unfoldable pub remove_gone : List Master → List Master → Cache → Cache
unfolding remove_master
remove_gone ms [] cache = cache
remove_gone ms (mc ∷ rest) cache =
    remove_gone ms rest (
      if any (λ (m : Master). str_eq mc.name m.name) ms then cache else remove_master mc.name cache)

unfoldable pub add_all : List Master → Cache → Cache
unfolding add_master
add_all [] cache = cache
add_all (m ∷ ms) cache = add_all ms (add_master m cache)

unfoldable pub add_masters : Cache → List Master → Cache
unfolding remove_gone add_all get_masters
add_masters cache ms = add_all ms (remove_gone ms (get_masters cache) cache)

-- Reconcile of NodeReconciler: the cache that it leaves
unfoldable pub read_masters : Cache → Error → Exec Cache
unfolding add_masters
read_masters cache (not_found _) = pure (add_masters cache [])
read_masters cache (text s) = fail (text s)
read_masters cache (retry n) = fail (retry n)
read_masters cache (conflict s) = fail (conflict s)
read_masters cache (invalid s) = fail (invalid s)

unfoldable pub reconcile_masters : Env → Cache → Exec Cache
unfolding read_masters add_masters
reconcile_masters env cache =
    catch (ask list_masters env.masters) (read_masters cache) (λ ms. pure (add_masters cache ms))
