-- ===== src/Alibaba/Outcomes.antt =====
-- What ScaleNodeGroup, DeleteNodeGroup and WaitDesiredCnt return where the cloud's answers are known.
use ooc.Base.{
  ℕ, zero, suc, ◌+◌, ◌==◌, ◌≤◌, String, ◌≡◌, refl, false, some, List, [], ◌∷◌, ◌++◌, length, str_eq,
  arith, contains, concat, if◌then◌else◌, All, All-append, length-append, ◌<◌, Bool-cases, inl, inr,
}
use ooc.Cloud.{Instance, BindId, NodePool, Error}
use ooc.Cloud.Sdk.{delete_group, describe_members, describe_instances}
use ooc.Cloud.Exec.{
  Trace, Outcome, ok, err, answer, pure, fail, ask, catch, ◌>>=◌, wrap, wrapped, message, maybe,
  sdk, pause, refused,
}
use ooc.Alibaba.{Sdk, Machine, issue, poll_state}
use ooc.Alibaba.Instances.{find_machines, instance_of_machine}
use ooc.Alibaba.Groups.{delete_node_group, delete_bound}
use ooc.Alibaba.Stacks.{wait_desired_cnt, count_round}

-- DeleteNodeGroup on a pool with a scaling group whose deletion fails: an error that says "not found"
-- is returned, and every other error is dropped, so that the deletion counts as done.
pub delete_node_group-refused :
    (api : Sdk) (np : NodePool) (bind : BindId) (t : Trace) (e : Error)
    → np.bind ≡ some bind
    → str_eq bind.scaling_group_id "" ≡ false
    → api.refusal t (delete_group bind.scaling_group_id) ≡ some e
    → (delete_node_group api np t).0 ≡ (
        if contains (message e) "not found"
        then err (wrapped (concat ("delete scaling group, " ∷ bind.scaling_group_id ∷ [])) e)
        else ok tt)
unfolding delete_node_group delete_bound issue maybe ask catch fail pure
delete_node_group-refused api np bind t e bound named refused =
    rw (bound, named, refused)
      (elim (Bool-cases (contains (message e) "not found")) [
        | inl missing ↦ rw missing refl
        | inr other ↦ rw other refl
      ])

-- a machine as WaitDesiredCnt reports it
abbrev pub reported : Machine → Instance
reported m = record (instance_of_machine "" m) { tags = [] }

-- The list has so many elements, and each is `one`.
abbrev pub Copies : Instance → ℕ → List Instance → Type 0
Copies one n l = (length l ≡ n) × All (λ i. i ≡ one) l

module _ (api : Sdk) (gid id : String) (m : Machine)
    (alone : (t : Trace) → api.group_members t gid ≡ answer (id ∷ []))
    (described : (t : Trace) → api.machines t (id ∷ []) ≡ answer (m ∷ [])) where
  abbrev Counts : ℕ → Outcome (List Instance) × Trace → Type 0
  Counts desired (o, t) = (l : List Instance) × (o ≡ ok l) × Copies (reported m) desired l

  one_round :
      (desired : ℕ) (seen : List Instance) (t : Trace)
      → count_round api gid desired seen t ≡ (
        ok (length (seen ++ reported m ∷ []) == desired, seen ++ reported m ∷ []),
        sdk (describe_instances (id ∷ [])) ∷ sdk (describe_members gid) ∷ t,
      )
  unfolding count_round ask ◌>>=◌ catch find_machines wrap pure
  one_round desired seen t = rw (alone t, described (sdk (describe_members gid) ∷ t)) refl

  grown :
      (n : ℕ) (seen : List Instance)
      → Copies (reported m) n seen
      → Copies (reported m) (n + 1) (seen ++ reported m ∷ [])
  grown n seen h = (
    omega (arith, length-append seen (reported m ∷ [])),
    All-append (λ i. i ≡ reported m) seen (reported m ∷ []) h.1 (refl, tt),
  )

  counted :
      (desired fuel n : ℕ) (seen : List Instance) (t : Trace)
      → Copies (reported m) n seen
      → n < desired
      → desired ≤ n + fuel
      → Counts desired (poll_state fuel 10 (count_round api gid desired) seen t)
  unfolding poll_state ◌>>=◌ catch pure pause ask
  counted desired zero n seen t h less enough = absurd (omega arith)
  counted desired (suc fuel) n seen t h less enough =
      let now = grown n seen h in
      let long : length (seen ++ reported m ∷ []) ≡ n + 1 = now.0 in
      elim (Bool-cases (length (seen ++ reported m ∷ []) == desired)) [
        | inl done ↦
            rw (one_round desired seen t, done)
              (seen ++ reported m ∷ [], refl, (ground arith, now.1))
        | inr more ↦
            rw (one_round desired seen t, more)
              (counted desired fuel (n + 1) (seen ++ reported m ∷ []) _ now (ground arith)
                (omega arith))
      ]

  -- WaitDesiredCnt over a group that has one machine, and keeps it, reports as many machines as are
  -- desired, all of them copies of that one, if it may try as often: each round appends what it sees to
  -- what the rounds before it saw.
  pub wait_desired_cnt-Copies :
      (desired : ℕ) (t : Trace)
      → str_eq gid "" ≡ false
      → 0 < desired
      → desired ≤ api.attempts 10 240
      → (l : List Instance) × ((wait_desired_cnt api gid desired t).0 ≡ ok l)
        × Copies (reported m) desired l
  unfolding wait_desired_cnt wrap ◌>>=◌ catch pure
  wait_desired_cnt-Copies desired t named pos enough =
      let (l, h, c) = counted desired (api.attempts 10 240) 0 [] t (refl, tt) pos (omega arith) in
      rw (named, h) (l, refl, c)
