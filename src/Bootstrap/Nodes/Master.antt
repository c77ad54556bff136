-- ===== src/Bootstrap/Nodes/Master.antt =====
-- Which calls the actions of a master make that have no other file.
use ooc.Base.{refl, [], ◌∷◌, str_eq}
use ooc.Cloud.{ClusterSpec}
use ooc.Cloud.Exec.{Env, crash, pure, make_dir}
use ooc.Cloud.Exec.Confines.{
  Confined, Confined-pure, Confined-crash, Confined-deref, Confined-if, Confined-perform,
  Confined-bind, Confined-wrap,
}
use ooc.Bootstrap.{NodeObject}
use ooc.Bootstrap.Nodes.Calls.{node_name-Confined}
use ooc.Actions.{Machine, auth_file}
use ooc.Actions.Kubeadm.{
  etcd_endpoints, get_kubeadm_config, client_url, write_ccm_auth, write_kube_auth,
}
use ooc.Actions.Calls.{given-Confined, write-Confined, ignored-Confined}
use ooc.Bootstrap.Nodes.Authority.{IsOrdinary, IsOrdinary-Permits}

module _ (m : Machine) (env : Env) where
  endpoints-Confined :
      (spec : ClusterSpec) (node : NodeObject)
      → Confined IsOrdinary (etcd_endpoints spec node.resource)
  unfolding etcd_endpoints
  endpoints-Confined spec node =
      Confined-if (str_eq spec.endpoints "") _ _
        (Confined-if (str_eq node.resource.ip "") crash (pure (client_url node.resource.ip ∷ []))
          Confined-crash (Confined-pure _))
        (Confined-pure _)

  pub config-Confined : (node : NodeObject) → Confined IsOrdinary (get_kubeadm_config m node)
  unfolding get_kubeadm_config
  config-Confined node = Confined-bind _ _ (Confined-deref node.boot) (λ boot.
      Confined-bind _ _ (node_name-Confined node.resource) (λ name.
        Confined-bind _ _ (endpoints-Confined boot.spec node) (λ endpoints.
          Confined-bind _ _
            (Confined-wrap "error executing config template" _
              (given-Confined (m.render_config node name endpoints)))
            (λ raw.
              Confined-bind _ _ (given-Confined (m.kustomize raw)) (λ patched. Confined-pure _)))))

  pub ccm-Confined : (node : NodeObject) → Confined IsOrdinary (write_ccm_auth env m node)
  unfolding write_ccm_auth
  ccm-Confined node =
      Confined-bind _ _
        (Confined-wrap _ _ (Confined-perform env (make_dir "/etc/kubernetes/") refl))
        (λ _. Confined-bind _ _ (Confined-deref node.boot) (λ boot.
          Confined-bind _ _ (Confined-deref boot.spec.root_ca) (λ r.
            Confined-bind _ _
              (Confined-wrap "render config error" _ (given-Confined (m.render _ _)))
              (λ cfg. write-Confined (IsOrdinary-Permits m) env _ cfg refl))))

  pub kube_auth-Confined : (node : NodeObject) → Confined IsOrdinary (write_kube_auth env m node)
  unfolding write_kube_auth
  kube_auth-Confined node =
      Confined-bind _ _
        (Confined-wrap _ _ (Confined-perform env (make_dir "/etc/kubernetes/") refl))
        (λ _. Confined-bind _ _ (Confined-deref node.boot) (λ boot.
          Confined-bind _ _ (Confined-deref boot.spec.root_ca) (λ r.
            Confined-bind _ _
              (Confined-wrap "sign kubernetes client crt" _ (given-Confined (m.sign_client r)))
              (λ pair.
                Confined-bind _ _
                  (Confined-wrap "make wdrip dir" _
                    (Confined-perform env (make_dir "/etc/wdrip") refl))
                  (λ _.
                    Confined-bind _ _
                      (ignored-Confined _ (write-Confined (IsOrdinary-Permits m) env _ _ refl))
                      (λ _.
                        Confined-bind _ _
                          (Confined-wrap "render admin.local config error" _
                            (given-Confined (m.render _ _)))
                          (λ cfg.
                            write-Confined (IsOrdinary-Permits m) env auth_file cfg refl)))))))
