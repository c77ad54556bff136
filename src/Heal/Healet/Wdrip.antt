-- ===== src/Heal/Healet/Wdrip.antt =====
-- FixWDRIP (healet.go): the repair that the monitor runs on a master while the operator itself is
-- not scheduled.
use ooc.Base.{List, [], ◌∷◌, length, ◌==◌, if◌then◌else◌, not}
use ooc.Cloud.Exec.{Env, Exec, pure, ask, catch, ◌>>=◌, ◌>>◌, wrap, get_deployment}
use ooc.Heal.Triple.{NodeInfo, new_triple_master, instance_node_diff}
use ooc.Heal.Operation.{run, label_node}
use ooc.Heal.Healet.{control_plane_labels, randn, nth, fix_up_meta}

-- The function `fixup` of the source: an error of the command is only logged.
unfoldable fixup : Env → NodeInfo → Exec (Unit {0})
unfolding run label_node
fixup env info =
    catch (run env info "systemctl restart kubelet") (λ _. pure tt) pure
    >> label_node env info control_plane_labels

unfoldable fix_addition : Env → List NodeInfo → Exec (Unit {0})
unfolding randn nth fixup
fix_addition env [] = pure tt
fix_addition env (i ∷ is) = do
  k ← randn env (length (i ∷ is))
  info ← nth (i ∷ is) k
  fixup env info

unfoldable pub fix_wdrip : Env → Exec (Unit {0})
unfolding new_triple_master fix_up_meta instance_node_diff fix_addition
fix_wdrip env =
    catch (ask get_deployment env.ready_replicas) (λ _. pure tt)
      λ ready. if not (ready == 0) then pure tt else do
        trip ← wrap "get Triple" (new_triple_master env)
        wrap "fix wdrip and meta" (fix_up_meta env trip)
        fix_addition env (instance_node_diff trip).0
