-- ===== src/Bootstrap/Coordinator.antt =====
-- InitFromCoordinator with RegisterMyself and SetBootCredential, and InitFunc, which chooses among the
-- four ways (pkg/boot/initialize.go).
use ooc.Base.{
  String, Bool, true, not, ◌||◌, ltb, ◌==◌, Option, none, some, str_eq, if◌then◌else◌, text_length,
}
use ooc.Cloud.{Master}
use ooc.Cloud.Exec.{
  Env, Exec, pure, ask, deref, catch, ◌>>=◌, ◌>>◌, wrap, boot_credential, register, perform,
}
use ooc.Clusters.{Desk}
use ooc.Bootstrap.{NodeObject, WdripOptions, Site}
use ooc.Cloud.Exec.Polling.{poll_after}
use ooc.Bootstrap.Initialize.{
  with_meta, meta_value, identify, with_client, init_from_operator, init_from_cfg,
  init_from_recover,
}

-- RegisterMyself
unfoldable pub registered_once : Env → Master → Exec (Option (Unit {0}))
registered_once env m = catch (perform env (register m)) (λ e. pure none) (λ u. pure (some tt))

-- the length of the text of the endpoints is compared with the number of masters
unfoldable pub is_enough : WdripOptions → NodeObject → Option Bool
is_enough flags n =
    if not (str_eq flags.role "Master") || (flags.expected_master_cnt == 0)
    then some true
    else elim n.boot [
      | none ↦ none
      | some boot ↦ some (not (ltb (text_length boot.spec.endpoints) flags.expected_master_cnt))
    ]

unfoldable pub take_credential : WdripOptions → NodeObject → Exec (Option NodeObject)
unfolding is_enough
take_credential flags n =
    deref (is_enough flags n) >>= λ enough. pure (if enough then some n else none)

unfoldable pub credential_once : Site → String → Exec (Option NodeObject)
unfolding take_credential
credential_once site id =
    catch (ask (boot_credential id) (λ t. site.credential t id)) (λ e. pure none)
      (take_credential site.flags)

unfoldable pub register_myself : Env → Site → Exec (Unit {0})
unfolding with_client identify poll_after registered_once
register_myself env site = with_client site do
  m ← identify site "meta data error nodeid" "meta data error nodeip"
  poll_after (registered_once env m) 2 (env.attempts 2 300)

-- SetBootCredential
unfoldable pub set_boot_credential : Env → Site → Exec NodeObject
unfolding with_client with_meta meta_value poll_after credential_once
set_boot_credential env site = with_client site (
    with_meta site do
      id ← meta_value site "meta data error setbootcredential" "node-id"
      wrap "wait for credential config err"
          (poll_after (credential_once site id) 2 (env.attempts 2 300)))

-- InitFromCoordinator
unfoldable pub init_from_coordinator : Env → Site → Exec NodeObject
unfolding register_myself set_boot_credential
init_from_coordinator env site =
    wrap "regiter self node error" (register_myself env site) >> set_boot_credential env site

-- InitFunc
unfoldable pub init_func : Env → Desk → Site → Exec NodeObject
unfolding init_from_cfg init_from_coordinator init_from_recover init_from_operator
init_func env desk site =
    let kind = site.flags.boot_type in
    if str_eq kind "local"
    then init_from_cfg env site
    else if str_eq kind "coordinator"
    then init_from_coordinator env site
    else if str_eq kind "recover"
    then init_from_recover env desk site
    else init_from_operator env site
