-- ===== src/Bootstrap/Nodes/Certified.antt =====
-- The order of the actions of a master's boot.
use ooc.Base.{
  String, ◌≡◌, refl, ◌⊎◌, inl, inr, true, List, [], ◌∷◌, Option, none, some, any, eq_iff, contains,
  subst, sym, ap, ◌∙◌,
}
use ooc.Cloud.Exec.{
  Env, Trace, pure, fail, perform, message, make_dir, remove_file, command, refused,
}
use ooc.Cloud.Exec.Confines.{
  Confined, Confined-pure, Confined-fail, Confined-deref, Confined-if, Confined-perform,
  Confined-catch, Confined-bind, Confined-wrap,
}
use ooc.Cloud.Exec.Triple.{Triple, Triple-ask, Triple-bind, Triple-wrap, Triple-ends}
use ooc.Bootstrap.{BootCluster, NodeObject, Site}
use ooc.Bootstrap.Nodes.{init_master_alone}
use ooc.Bootstrap.Nodes.Calls.{platform-Confined, packages-Confined, configure-Confined}
use ooc.Actions.{Machine, run_actions, run_cmd}
use ooc.Actions.Kubeadm.{init_control_plane}
use ooc.Actions.Kubelet.{
  write_note, cert_path, pki_files, remove_certs, former_certs, load_cert, load_cert_of,
  start_kubelet,
}
use ooc.Actions.Post.{Shelf}
use ooc.Actions.Calls.{VisitsMap, given-Confined, run-Confined, write-Confined}
use ooc.Actions.Installs.{post-Confined}
use ooc.Bootstrap.Nodes.Authority.{
  IsOrdinary, IsOrdinary-Permits, IsCertified, Written, Orderly, ordinary, after_writing,
  dereferenced, fact, write_all-Written, is_authority,
}
use ooc.Bootstrap.Nodes.Master.{config-Confined, ccm-Confined, kube_auth-Confined}

abbrev pub authority_of : Option BootCluster → Option String
authority_of none = none
authority_of (some boot) = boot.spec.root_ca

module _ (m : Machine) (root : String) (env : Env) where
  remove-Confined : (names : List String) → Confined IsOrdinary (remove_certs env m names)
  unfolding remove_certs
  remove-Confined [] = Confined-pure tt
  remove-Confined (name ∷ rest) =
      Confined-bind _ _
        (Confined-catch _ _ pure (Confined-perform env (remove_file (cert_path m name)) refl)
          (λ e.
            Confined-if (contains (message e) "no such file or directory") _ _ (Confined-pure tt)
              (Confined-wrap "clean up existing cert fail" (fail e) (Confined-fail e)))
          Confined-pure)
        (λ _. remove-Confined rest)

  has_authority :
      (control : Option String) (r front sa : String)
      → r ≡ root
      → any (is_authority env m root) (pki_files m control r front sa) ≡ true
  unfolding pki_files any
  has_authority control r front sa h =
      let same = (eq_iff (m.cert r) (m.cert root)).1 (ap m.cert h) in rw same refl

  some-inj : (a b : String) → some a ≡ some b → a ≡ b
  some-inj a b h = cc

  load_cert-Written :
      (node : NodeObject)
      → VisitsMap m
      → authority_of node.boot ≡ some root
      → Orderly env m root (IsCertified env m root) (Written env m root) (load_cert env m node)
  unfolding load_cert
  load_cert-Written node order known =
      Triple-bind _ _
        (ordinary env m root _
          (Confined-wrap _ _ (Confined-perform env (make_dir "/etc/kubernetes/pki") refl)))
        (λ _.
          Triple-bind _ _ (dereferenced env m root node.boot (IsCertified env m root) (λ t h. h))
            (λ boot. fact env m root _ (λ hb.
              Triple-bind _ _
                (dereferenced env m root boot.spec.root_ca (IsCertified env m root) (λ t h. h))
                (λ r. fact env m root _ (λ hr.
                  let is_root = some-inj r root (sym hr ∙ (ap authority_of (sym hb) ∙ known)) in
                  Triple-bind _ _ (ordinary env m root _ (Confined-deref boot.spec.front_proxy_ca))
                    (λ front.
                      Triple-bind _ _
                        (ordinary env m root _ (Confined-deref boot.spec.svc_account_ca))
                        (λ sa.
                          Triple-bind {R = λ _. Written env m root} _ _
                            (record {
                              at = λ t p.
                                  Triple.at
                                    (write_all-Written env m root write_note _ (
                                      order.visits (is_authority env m root) t _
                                      ∙ has_authority boot.spec.control_root r front sa is_root))
                                    t p;
                            })
                            (λ _.
                              Triple-bind _ _
                                (after_writing env m root _ (remove-Confined former_certs))
                                (λ _. after_writing env m root _ (
                                  run-Confined (IsOrdinary-Permits m) env
                                    ("rm" ∷ "-rf" ∷ "/var/lib/kubelet/pki/" ∷ []) refl))))))))))

  load_cert_of-Written :
      (node : NodeObject) (role : String)
      → VisitsMap m
      → authority_of node.boot ≡ some root
      → (role ≡ "Master") ⊎ (role ≡ "Hybrid")
      → Orderly env m root
          (IsCertified env m root)
          (Written env m root)
          (load_cert_of env m node role)
  unfolding load_cert_of
  load_cert_of-Written node role order known (inl master) =
      subst
        (λ r.
          Orderly env m root (IsCertified env m root) (Written env m root)
            (load_cert_of env m node r))
        (sym master) (Triple-wrap "sign" _ (λ e t p. p) (load_cert-Written node order known))
  load_cert_of-Written node role order known (inr hybrid) =
      subst
        (λ r.
          Orderly env m root (IsCertified env m root) (Written env m root)
            (load_cert_of env m node r))
        (sym hybrid) (Triple-wrap "sign" _ (λ e t p. p) (load_cert-Written node order known))

  init-Certified :
      (node : NodeObject)
      → Orderly env m root
          (Written env m root)
          (IsCertified env m root)
          (init_control_plane env m node)
  unfolding init_control_plane run_cmd perform
  init-Certified node =
      Triple-bind _ _ (after_writing env m root _ (Confined-wrap _ _ (config-Confined m env node)))
        (λ config.
          Triple-bind _ _
            (after_writing env m root _
              (Confined-wrap _ _ (Confined-perform env (make_dir "/etc/kubeadm/") refl)))
            (λ _.
              Triple-bind _ _
                (after_writing env m root _
                  (Confined-wrap _ _ (write-Confined (IsOrdinary-Permits m) env _ config refl)))
                (λ _.
                  Triple-ask (command _) (λ t. refused (env.refusal t (command _)))
                    (λ t a p _. (inr p.0, p.1)) (λ t e p _. (inr p.0, p.1)))))

boot-Certified :
    (env : Env) (m : Machine) (shelf : Shelf) (site : Site) (node : NodeObject) (root : String)
    → VisitsMap m
    → authority_of node.boot ≡ some root
    → (site.flags.role ≡ "Master") ⊎ (site.flags.role ≡ "Hybrid")
    → Orderly env m root
        (IsCertified env m root)
        (IsCertified env m root)
        (init_master_alone env m shelf site node)
unfolding init_master_alone run_actions start_kubelet
boot-Certified env m shelf site node root order known role =
    Triple-bind _ _
      (ordinary env m root _ (platform-Confined (IsOrdinary-Permits m) env shelf site))
      (λ p. Triple-bind _ _ (ordinary env m root _ (Confined-deref node.boot)) (λ boot.
        Triple-bind {R = λ _. IsCertified env m root} _ _
          (record {
            at = λ t h.
                Triple.at
                  (ordinary env m root _ (
                    Confined-wrap "initialize provider" _
                      (given-Confined (site.provider t boot.spec.region))))
                  t h;
          })
          (λ _.
            Triple-bind _ _
              (ordinary env m root _
                (packages-Confined (IsOrdinary-Permits m) env shelf site boot.spec p.0 p.1))
              (λ _.
                Triple-bind _ _
                  (Triple-bind _ _
                    (load_cert_of-Written m root env node site.flags.role order known role)
                    (λ _.
                      after_writing env m root _
                        (configure-Confined (IsOrdinary-Permits m) env shelf site node refl)))
                  (λ _. Triple-bind _ _ (init-Certified m root env node) (λ _.
                    ordinary env m root _ (
                      Confined-bind _ _ (ccm-Confined m env node) (λ _.
                        Confined-bind _ _ (kube_auth-Confined m env node) (λ _.
                          Confined-bind _ _
                            (post-Confined (IsOrdinary-Permits m) env shelf site node)
                            (λ _. Confined-pure tt))))))))))

-- If a range over a map visits its entries, the node has the cluster's certificate authority and
-- boots as a master or as both kinds of member, then its boot runs `kubeadm init` only after a write of
-- the certificate of that authority to /etc/kubernetes/pki/ca.crt that was not refused, whatever fails on
-- the way, if that holds of the calls before.
pub init_master_alone-IsCertified :
    (env : Env) (m : Machine) (shelf : Shelf) (site : Site) (node : NodeObject) (root : String)
    (t : Trace)
    → VisitsMap m
    → authority_of node.boot ≡ some root
    → (site.flags.role ≡ "Master") ⊎ (site.flags.role ≡ "Hybrid")
    → IsCertified env m root t
    → IsCertified env m root (init_master_alone env m shelf site node t).1
init_master_alone-IsCertified env m shelf site node root t order known role h =
    Triple-ends (IsCertified env m root) _
      (boot-Certified env m shelf site node root order known role) t h
