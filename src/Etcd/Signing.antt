-- ===== src/Etcd/Signing.antt =====
-- Which calls LoadOrSign (etcd.go) makes: signatures, and what makes the directory and the files of the
-- certificates.
use ooc.Base.{String, Bool, true, false, List, [], ◌∷◌, concat}
use ooc.Cloud.{Master, Cluster}
use ooc.Cloud.Exec.{Call, Env, sign_etcd, make_dir, write_file}
use ooc.Cloud.Exec.Emits.{Emits, emits_rules, Emits-bind, Emits-wrap, Emits-perform}
use ooc.Etcd.{cert_files, cert_home, write_certs, load_or_sign, sign_missing}

module _ {Q : Call → Type 0} (env : Env) (signs : (n : Master) → Q (sign_etcd n))
    (makes : (path : String) → Q (make_dir path))
    (writes : (path body : String) → Q (write_file path body)) where
  certs-Emits : (home : String) (names : List String) → Emits Q (write_certs env home names)
  unfolding write_certs
  certs-Emits home [] = search emits_rules
  certs-Emits home (name ∷ rest) =
      Emits-bind _ _
        (record {
          at = λ t h.
              Emits.at
                (Emits-wrap (concat ("write file " ∷ name ∷ [])) _
                  (Emits-perform env _ (writes (cert_home home name) (env.certificate t name))))
                t h;
        })
        (λ _. certs-Emits home rest)

  ordered-Emits :
      (home : String) → Emits Q (λ t. write_certs env home (env.file_order t cert_files) t)
  ordered-Emits home = record {
    at = λ t h. Emits.at (certs-Emits home (env.file_order t cert_files)) t h;
  }

  pub sign-Emits :
      (ms : List Master) (spec : Cluster) (home : String) (b : Bool)
      → Emits Q (sign_missing env ms spec home b)
  unfolding sign_missing load_or_sign
  sign-Emits [] spec home true = search emits_rules
  sign-Emits [] spec home false = search emits_rules
  sign-Emits (m ∷ ms) spec home true = search emits_rules
  sign-Emits (m ∷ ms) spec home false = search (emits_rules, ordered-Emits) depth 20
