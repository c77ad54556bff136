-- ===== src/Heal/Healet/Labels.antt =====
-- The labels that fixUpHard (healet.go) sets by LabelNode (operation.go) on a control plane node.
use ooc.Base.{
  String, ◌≡◌, refl, ◌∙◌, false, Option, none, some, List, [], ◌∷◌, arith, str_eq, eq_iff,
  Bool-cases, inl, inr, is_some,
}
use ooc.Cloud.{Node}
use ooc.Help.{lookup, insert, is_master}
use ooc.Heal.Operation.{insert_all, set_labels}
use ooc.Heal.Healet.{control_plane_labels}

pub lookup-insert_same :
    (k v : String) (m : List (String × String)) → lookup k (insert k v m) ≡ some v
unfolding lookup insert
lookup-insert_same k v [] = let same = (eq_iff k k).1 refl in ground arith
lookup-insert_same k v ((j, w) ∷ m) =
    let same = (eq_iff k k).1 refl in let ih = lookup-insert_same k v m in ground arith

lookup-insert_other :
    (k j v : String) (m : List (String × String))
    → str_eq j k ≡ false
    → lookup k (insert j v m) ≡ lookup k m
unfolding lookup insert
lookup-insert_other k j v [] h = ground arith
lookup-insert_other k j v ((l, w) ∷ m) h = elim (Bool-cases (str_eq l j)) [
  | inl same ↦
      let name = (eq_iff l j).0 same in let differ : str_eq l k ≡ false = rw name h in ground arith
  | inr other ↦ let ih = lookup-insert_other k j v m h in ground arith
]

found :
    (m : List (String × String))
    → lookup "node-role.kubernetes.io/master" (insert_all control_plane_labels m) ≡ some ""
unfolding insert_all
found m =
    lookup-insert_other "node-role.kubernetes.io/master" "node-role.kubernetes.io/control-plane" ""
      _ refl
    ∙ lookup-insert_same "node-role.kubernetes.io/master" "" m

labelled :
    (n : Node) (o : Option (List (String × String)))
    → n.labels ≡ o
    → is_master (set_labels control_plane_labels n) ≡ is_some o
unfolding is_master set_labels
labelled n none e = rw e refl
labelled n (some m) e = rw e (rw (is_master, found m) refl)

-- Setting the two control plane labels makes a node a master for IsMaster exactly if its label map
-- is not nil; on a nil map the labels are lost.
pub set_labels-is_master :
    (n : Node) → is_master (set_labels control_plane_labels n) ≡ is_some n.labels
set_labels-is_master n = labelled n n.labels refl
