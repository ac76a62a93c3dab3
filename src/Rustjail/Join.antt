-- ===== src/Rustjail/Join.antt =====
-- `join_namespaces` of rustjail/src/container.rs. `os.fork` says in which process the code goes on: the
-- agent, its child, or the child's child. What each branch does between the messages is an argument of
-- the branch, so that the order of the messages can be looked at alone (Rustjail.Handshake).
pub mod Laws
use Prim.Native.String.{◌++◌}
use kata_rust_agent.Base.{
  ℕ, String, Bool, true, false, not, ◌&&◌, ◌||◌, Option, none, some, List, [], ◌∷◌, ◌==◌, ℤ, pos,
  negsuc, ltb, if◌then◌else◌,
}
use kata_rust_agent.Base.Print.{show_ℤ}
use kata_rust_agent.Base.Exec.{
  Exec, Outcome, ok, err, panic, Error, nix, einval, pure, raise, crash, unwrap, or_raise, attempt,
  chain_err, for_each, ◌>>=◌, ◌>>◌,
}
use kata_rust_agent.Oci.{Hook, Hooks, Linux, OciState, Spec}
use kata_rust_agent.Oci.Process.{OciProcess}
use kata_rust_agent.Os.{Os, leave}
use kata_rust_agent.Os.Flags.{CloneFlag, CloneFlags, newuser, newns, newuts, clone_index}
use kata_rust_agent.Rustjail.Container.{Manager}
use kata_rust_agent.Rustjail.Cgroups.Manager.{set as set_groups, apply}
use kata_rust_agent.Rustjail.Handshake.{Plan}
use kata_rust_agent.Rustjail.Identity.{setid, setrlimit, set_sysctls}
use kata_rust_agent.Rustjail.Lifecycle.{execute_hook}
use kata_rust_agent.Rustjail.Namespaces.{NamespacePlan, write_mappings}
use kata_rust_agent.Rustjail.Rootfs.Pivot.{Info, Tail, ms_move_root, pivot_rootfs}
use kata_rust_agent.Rustjail.Rootfs.Setup.{init_rootfs}
use kata_rust_agent.Rustjail.Sync.{read_sync, write_sync}

-- What the code takes from elsewhere: the bytes of a text, what `scan_fmt!` reads, the text of an
-- error, the order of `NAMESPACES.keys()`; and the bounds of the model, the rounds of `read_sync` and
-- `write_sync` and the depth of `copy_parent`.
pub record Outside : Type 0 where
  pub as_bytes : String → List ℕ
  pub scan_head : String → Outcome Info
  pub scan_tail : String → Outcome Tail
  pub display : Error → String
  pub keys : List String
  pub rounds : ℕ
  pub depth : ℕ

abbrev pub optional : {W : Type 0} → Bool → Exec W (Unit {0}) → Exec W (Unit {0})
optional b m = if b then m else pure tt

-- what the agent does between the messages
pub record ParentSteps (W : Type 0) : Type 0 where
  pub receive : Exec W ℤ
  pub answer : ℤ → Exec W (Unit {0})
  pub map_user_ids : Exec W (Unit {0})
  pub apply_cgroups : Exec W (Unit {0})
  pub prestart : Exec W (Unit {0})
  pub poststart : Exec W (Unit {0})

-- what the child does up to its own fork; `join_all` is the loop over `to_join` and the `unshare`
pub record FirstSteps (W J : Type 0) : Type 0 where
  pub notify : ℤ → Exec W (Unit {0})
  pub wait : Exec W ℤ
  pub unshare_user : Exec W (Unit {0})
  pub set_root_ids : Exec W (Unit {0})
  pub join_all : Exec W J

-- what the process that becomes the container's does; `R` is what is kept of its root
pub record LastSteps (W R : Type 0) : Type 0 where
  pub notify : ℤ → Exec W (Unit {0})
  pub wait : Exec W ℤ
  pub wait_hooks : Exec W ℤ
  pub close_hooks : Exec W (Unit {0})
  pub prepare_root : Exec W R
  pub enter : R → Exec W (Unit {0})

module _ {W : Type 0} where
  abbrev pub final_pid : Plan → ParentSteps W → ℤ → Exec W ℤ
  final_pid p o child =
      if p.pidns then (do pid ← o.receive; o.answer (pos 0); pure pid) else pure child

  abbrev pub run_both_hooks : ParentSteps W → Exec W (Unit {0})
  run_both_hooks o = do o.receive; o.prestart; o.answer (pos 0); o.receive; o.poststart

  -- the branch of the agent, between its closes
  unfoldable pub parent_branch : Plan → ParentSteps W → ℤ → Exec W ℤ
  parent_branch p o child = do
    o.receive
    optional p.userns o.map_user_ids
    o.apply_cgroups
    o.answer (pos 0)
    pid ← final_pid p o child
    optional p.init (run_both_hooks o)
    pure pid

  -- the branch of the child, from the `unshare` of its user namespace to its own fork
  unfoldable pub first_branch : {J : Type 0} → Plan → FirstSteps W J → Exec W J
  first_branch p o = do
    optional p.userns o.unshare_user
    o.notify (pos 0)
    o.wait
    optional p.userns o.set_root_ids
    o.join_all

  -- the child after that fork, with the number of its own child
  unfoldable pub middle_branch :
      (ℤ → Exec W (Unit {0})) → Exec W ℤ → (ℤ → Exec W (Unit {0})) → ℤ → Exec W (Unit {0})
  middle_branch notify wait wake child = do notify child; wait; wake (pos 0)

  -- the rest of the function, in the process that becomes the container's
  unfoldable pub last_branch : {R : Type 0} → Plan → LastSteps W R → Exec W (Unit {0})
  last_branch p o = do
    root ← o.prepare_root
    optional p.pidns (do o.wait_hooks; pure tt)
    o.close_hooks
    optional p.init (do o.notify (pos 0); o.wait; pure tt)
    o.enter root

abbrev pub is_flag : CloneFlag → CloneFlag → Bool
is_flag f g = clone_index f == clone_index g

abbrev pub without_user : CloneFlags → CloneFlags
without_user flags f = flags f && not (is_flag f newuser)

abbrev pub prestart_of : Option Hooks → List Hook
prestart_of none = []
prestart_of (some h) = h.prestart

abbrev pub poststart_of : Option Hooks → List Hook
poststart_of none = []
poststart_of (some h) = h.poststart

module _ ⦃os : Os⦄ (ext : Outside) where
  -- a `read_sync` or a `write_sync` that is out of rounds counts as a panic
  unfoldable pub receive_from : ℕ → Exec os.World ℤ
  unfolding read_sync
  receive_from fd = do r ← read_sync ext.rounds fd; unwrap r

  unfoldable pub send_to : ℕ → ℤ → Exec os.World (Unit {0})
  unfolding write_sync
  send_to fd n = do r ← write_sync ext.rounds fd n; unwrap r

  -- An error after `*parent` is set makes `start` end the process.
  abbrev pub or_leave : {A : Type 0} → ℤ → Exec os.World A → Exec os.World A
  or_leave code m = do r ← attempt m; elim r [ ok a ↦ pure a | err e ↦ leave code | panic ↦ crash ]

  abbrev pub apply_resources : Bool → Linux → Manager → ℤ → Exec os.World (Unit {0})
  apply_resources init linux m child = elim linux.resources [
    | none ↦ pure tt
    | some r ↦ do optional init (set_groups ext.depth m r false); apply m child
  ]

  abbrev pub parent_steps :
      Bool → Spec → Linux → Manager → OciState → ℤ → ℕ → ℕ → ParentSteps os.World
  parent_steps init spec linux m st child pfd pwfd = record {
    receive = receive_from pfd;
    answer = send_to pwfd;
    map_user_ids = do
      write_mappings ext.as_bytes ("/proc/" ++ show_ℤ child ++ "/uid_map") linux.uid_mappings
      write_mappings ext.as_bytes ("/proc/" ++ show_ℤ child ++ "/gid_map") linux.gid_mappings;
    apply_cgroups = apply_resources init linux m child;
    prestart = for_each (prestart_of spec.hooks) (execute_hook st);
    poststart = for_each (poststart_of spec.hooks) (execute_hook st);
  }

  -- what the child does to itself first
  abbrev pub limit_self : OciProcess → Exec os.World (Unit {0})
  limit_self p = do
    elim p.oom_score_adj [
      | pos n ↦ optional (ltb 0 n) (os.write "/proc/self/oom_score_adj" (show_ℤ p.oom_score_adj))
      | negsuc n ↦ pure tt
    ]
    for_each p.rlimits setrlimit

  -- a user namespace that the process is in already may be joined again
  abbrev pub joined : CloneFlag → Outcome (Unit {0}) → Exec os.World (Unit {0})
  joined s (ok _) = pure tt
  joined s (err (nix einval)) = if is_flag s newuser then pure tt else raise (nix einval)
  joined s (err (nix e)) = raise (nix e)
  joined s (err e) = crash
  joined s panic = crash

  -- the loop over `to_join`, with `mount_fd` and `bind_device`
  unfoldable pub join_each :
      List (CloneFlag × ℕ) → Option ℕ → Bool → Exec os.World (Option ℕ × Bool)
  unfolding setid
  join_each [] mount_fd bind_device = pure (mount_fd, bind_device)
  join_each ((s, fd) ∷ to_join) mount_fd bind_device =
      let next : Option ℕ → Bool → Exec os.World (Option ℕ × Bool) = λ m b. join_each to_join m b in
      if is_flag s newns then next (some fd) bind_device else (do
        r ← attempt (os.setns fd s)
        joined s r
        os.close fd
        optional (is_flag s newuser) (setid 0 0)
        next mount_fd (bind_device || is_flag s newuser))

  abbrev pub first_steps : NamespacePlan → ℕ → ℕ → FirstSteps os.World (Option ℕ × Bool)
  first_steps plan cfd crfd = record {
    notify = send_to cfd;
    wait = receive_from crfd;
    unshare_user = os.unshare_flags (is_flag newuser);
    set_root_ids = setid 0 0;
    join_all = do
      (mount_fd, bind_device) ← join_each plan.to_join none false
      os.unshare_flags (without_user plan.to_new)
      pure (mount_fd, bind_device || plan.to_new newuser);
  }

  abbrev pub last_steps :
      Spec
      → Linux
      → NamespacePlan
      → Bool
      → Manager
      → Option ℕ
      → Bool
      → ℕ
      → ℕ
      → ℕ
      → LastSteps os.World String
  last_steps spec linux plan no_pivot m mount_fd bind_device cfd crfd chfd = record {
    notify = send_to cfd;
    wait = receive_from crfd;
    wait_hooks = receive_from chfd;
    close_hooks = os.close chfd;
    prepare_root = do
      optional (plan.to_new newuts) (os.sethostname spec.hostname)
      path ← unwrap spec.root
      rootfs ← (λ w. (os.canonicalize path w, w))
      optional (plan.to_new newns) (init_rootfs spec m.paths m.mounts bind_device)
      pure rootfs;
    enter = λ rootfs. do
      os.close crfd
      elim mount_fd [ none ↦ pure tt | some fd ↦ do os.setns fd newns; os.close fd ]
      optional (plan.to_new newns) (do
        if no_pivot
            then (do ms_move_root ext.scan_head ext.scan_tail ext.display rootfs; pure tt)
            else pivot_rootfs rootfs
        set_sysctls linux.sysctl
        os.chdir "/");
  }

  -- the child's side of the function; -1 stands for no process
  unfoldable pub child_branch :
      Plan → Spec → Linux → NamespacePlan → Bool → Manager → ℕ → ℕ → Exec os.World (ℤ × ℕ)
  unfolding for_each setrlimit first_branch middle_branch last_branch receive_from send_to join_each
  child_branch p spec linux plan no_pivot m cfd crfd = do
    process ← or_raise spec.process (nix einval)
    limit_self process
    (mount_fd, bind_device) ← first_branch p (first_steps plan cfd crfd)
    (chfd, phfd) ← chain_err "failed to create pipe for syncing run hooks" os.pipe
    let last : Exec os.World (ℤ × ℕ) = do
      last_branch p (last_steps spec linux plan no_pivot m mount_fd bind_device cfd crfd chfd)
      pure (negsuc 0, cfd)
    if p.pidns
        then (do
          f ← os.fork
          elim f [
            | some child ↦ do
              os.close chfd
              middle_branch (send_to cfd) (receive_from crfd) (send_to phfd) child
              leave (pos 0)
            | none ↦ or_leave (negsuc 1) (do os.close phfd; last)
          ])
        else last

  -- `join_namespaces`
  unfoldable pub join_namespaces :
      Spec → NamespacePlan → Bool → Bool → Manager → OciState → Exec os.World (ℤ × ℕ)
  unfolding parent_branch child_branch for_each execute_hook receive_from send_to
  join_namespaces spec plan init no_pivot m st =
      let p : Plan = record { init = init; pidns = plan.pidns; userns = plan.to_new newuser } in
      do
        (pfd, cfd) ← chain_err "failed to create pipe" os.pipe
        (crfd, pwfd) ← os.pipe
        linux ← unwrap spec.linux
        f ← os.fork
        elim f [
          | some child ↦ do
            os.close cfd
            os.close crfd
            pid ← parent_branch p (parent_steps init spec linux m st child pfd pwfd) child
            os.close pfd
            os.close pwfd
            pure (pid, cfd)
          | none ↦
              or_leave (negsuc 0)
                (do os.close pfd; os.close pwfd; child_branch p spec linux plan no_pivot m cfd crfd)
        ]
