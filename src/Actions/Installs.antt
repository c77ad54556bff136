-- ===== src/Actions/Installs.antt =====
-- Which calls the installation of addons, of the operator and of the monitor makes.
use ooc.Base.{String, refl, true, List, [], ◌∷◌, none, some, concat, split}
use ooc.Cloud.{ClusterSpec}
use ooc.Cloud.Exec.{Call, Env, Exec, pure, register_crds}
use ooc.Cloud.Exec.Confines.{
  Confined, Confined-pure, Confined-fail, Confined-deref, Confined-perform, Confined-catch,
  Confined-bind, Confined-wrap, Confined-poll_after,
}
use ooc.Bootstrap.{NodeObject, Site}
use ooc.Actions.{Machine, apply_yaml_common, auth_file}
use ooc.Actions.Calls.{Permits, given-Confined, dns-Confined, run-Confined, write-Confined}
use ooc.Actions.Post.{
  Addon, Shelf, addon_values, render_addons, region_of, addons_on, default_addons, logged_round,
  install_each, install_addons, apply_yaml, boot_cfg, apply_until, do_run_wdrip, run_monitor,
  run_wdrip, write_cluster_cr, write_public_info, install_post,
}

module _ {Q : Call → Type 0} where
  render-Confined :
      (m : Machine) (values_of : String → Addon → List (String × String)) (cfgs : List Addon)
      (rendered : List (String × String))
      → Confined Q (render_addons m values_of cfgs rendered)
  unfolding render_addons
  render-Confined m values_of [] rendered = Confined-pure rendered
  render-Confined m values_of (a ∷ rest) rendered =
      Confined-bind _ _
        (record {
          at = λ I k t.
              Confined.at
                (Confined-wrap "render config" _ (
                  given-Confined
                    (m.render (concat ("addon-config." ∷ a.name ∷ [])) (values_of (m.uuid t) a))))
                I k t;
        })
        (λ yml. render-Confined m values_of rest _)

  region-Confined : (parts : List String) → Confined Q (region_of parts)
  unfolding region_of
  region-Confined [] = Confined-fail _
  region-Confined (a ∷ []) = Confined-fail _
  region-Confined (a ∷ b ∷ []) = Confined-fail _
  region-Confined (a ∷ b ∷ c ∷ []) = Confined-fail _
  region-Confined (a ∷ b ∷ c ∷ d ∷ []) = Confined-pure b
  region-Confined (a ∷ b ∷ c ∷ d ∷ e ∷ rest) = Confined-fail _

  addons-Confined :
      (m : Machine) (spec : ClusterSpec) (sgid vsw : String) (cfgs : List Addon)
      → Confined Q (addons_on m spec sgid vsw cfgs)
  unfolding addons_on
  addons-Confined m spec sgid vsw cfgs =
      Confined-bind _ _ (region-Confined (split "." 0 spec.registry)) (λ region.
        Confined-bind _ _
          (Confined-catch _ _ pure (dns-Confined m spec.svc_cidr) (λ e. Confined-fail _)
            Confined-pure)
          (λ ip. render-Confined m (addon_values spec region ip vsw sgid) cfgs []))

  default-Confined :
      (m : Machine) (shelf : Shelf) (spec : ClusterSpec) (cfgs : List Addon)
      → Confined Q (default_addons m shelf spec cfgs)
  unfolding default_addons
  default-Confined m shelf spec [] =
      Confined-bind _ _
        (record {
          at = λ I k t.
              Confined.at (Confined-wrap "get vswitch" _ (given-Confined (shelf.vswitches t))) I k
                t;
        })
        (λ vsw. record {
          at = λ I k t.
              Confined.at (addons-Confined m spec (shelf.security_group t) vsw shelf.all_addons) I k
                t;
        })
  default-Confined m shelf spec (a ∷ cfgs) = addons-Confined m spec "" "" (a ∷ cfgs)

  logged-Confined : (run : Exec (Unit {0})) → Confined Q run → Confined Q (logged_round run)
  unfolding logged_round
  logged-Confined run h =
      Confined-catch run (λ _. pure none) (λ _. pure (some tt)) h (λ _. Confined-pure none)
        (λ _. Confined-pure (some tt))

module _ {m : Machine} {Q : Call → Type 0} (permits : Permits m Q (λ path. true)) (env : Env)
    (shelf : Shelf) where
  apply-Confined : (yml auth tmp : String) → Confined Q (apply_yaml_common env yml auth tmp)
  unfolding apply_yaml_common
  apply-Confined yml auth tmp =
      Confined-bind _ _
        (Confined-wrap "create tmp file" _ (write-Confined permits env tmp yml refl))
        (λ _.
          run-Confined permits env ("kubectl" ∷ "--kubeconfig" ∷ auth ∷ "apply" ∷ "-f" ∷ tmp ∷ [])
            refl)

  each-Confined : (entries : List (String × String)) → Confined Q (install_each env entries)
  unfolding install_each
  each-Confined [] = Confined-pure tt
  each-Confined ((name, yml) ∷ rest) =
      Confined-bind _ _
        (Confined-wrap "apply addon wait error" _ (
          Confined-poll_after _ 2 (env.attempts 2 60)
            (logged-Confined _
              (apply-Confined yml auth_file (concat ("/tmp/addon." ∷ name ∷ ".yml" ∷ []))))
            (permits.on_sleep 2)))
        (λ _. each-Confined rest)

  install-Confined :
      (spec : ClusterSpec) (cfgs : List Addon) → Confined Q (install_addons env m shelf spec cfgs)
  unfolding install_addons
  install-Confined spec cfgs =
      Confined-bind _ _
        (Confined-wrap "generate default addon" _ (default-Confined m shelf spec cfgs))
        (λ rendered. record {
          at = λ I k t. Confined.at (each-Confined (m.map_order t rendered)) I k t;
        })

  yaml-Confined : (yml name : String) → Confined Q (apply_yaml env yml name)
  unfolding apply_yaml
  yaml-Confined yml name = apply-Confined yml auth_file (concat ("/tmp/cfg." ∷ name ∷ ".yaml" ∷ []))

  until-Confined :
      (spec : ClusterSpec) (yml name : String) → Confined Q (apply_until env shelf spec yml name)
  unfolding apply_until boot_cfg
  until-Confined spec yml name =
      Confined-poll_after _ 2 (env.attempts 2 60)
        (logged-Confined _ (
          Confined-bind _ _
            (Confined-bind _ _
              (Confined-wrap "marshal bootcfg" _ (given-Confined (shelf.secret spec)))
              (λ secret. yaml-Confined secret "bootcfg"))
            (λ _. yaml-Confined yml name)))
        (permits.on_sleep 2)

  wdrip-Confined : (spec : ClusterSpec) → Confined Q (run_wdrip env m shelf spec)
  unfolding run_wdrip do_run_wdrip run_monitor
  wdrip-Confined spec =
      Confined-bind _ _
        (Confined-bind _ _
          (record {
            at = λ I k t.
                Confined.at (Confined-wrap "write wdrip yaml" _ (given-Confined (m.render _ _))) I k
                  t;
          })
          (λ yml. until-Confined spec yml "wdrip"))
        (λ _.
          Confined-bind _ _ (Confined-wrap "write monitor yaml" _ (given-Confined (m.render _ _)))
            (λ yml. until-Confined spec yml "monitor"))

  pub post-Confined :
      (site : Site) (node : NodeObject) → Confined Q (install_post env m shelf site node)
  unfolding install_post write_cluster_cr write_public_info
  post-Confined site node = Confined-bind _ _ (Confined-deref node.boot) (λ boot.
      Confined-bind _ _ (Confined-wrap "install addons" _ (install-Confined boot.spec _)) (λ _.
        Confined-bind _ _
          (Confined-wrap "register crds" _ (
            Confined-perform env (register_crds "/etc/kubernetes/admin.conf")
              (permits.on_register "/etc/kubernetes/admin.conf")))
          (λ _.
            Confined-bind _ _ (Confined-wrap "write cluster cfg" _ (yaml-Confined _ "cluster-crd"))
              (λ _. Confined-bind _ _ (Confined-deref boot.spec.root_ca) (λ root.
                Confined-bind _ _
                  (Confined-catch _ _ pure
                    (Confined-bind _ _
                      (Confined-wrap "write config" _
                        (given-Confined (shelf.public_info boot.spec)))
                      (λ kubeconfig. yaml-Confined _ "cluster-info"))
                    (λ _. Confined-fail _) Confined-pure)
                  (λ _. wdrip-Confined boot.spec))))))
