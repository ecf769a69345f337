-- ===== src/Agent/Commands/Augment.antt =====
-- pkg/agent/commands/augment.go: the handler of "augment", its cache, and the contexts of the
-- processes that run when it starts.
pub mod Cached
use Prim.Native.String.{◌++◌ as concat}
use camblet.Base.{
  ℕ, Bool, true, false, not, List, [], ◌∷◌, Option, none, some, String, if◌then◌else◌,
}
use camblet.Base.Assoc.{Assoc, lookup, insert}
use camblet.Base.Int.{ℤ, pos, int32, uint32}
use camblet.Base.Result.{Error, ok, Result, ◌>>=◌}
use camblet.Base.Fallible.{Fallible, value, fails}
use camblet.Agent.Messenger.{Command, CommandContext, NamespaceIds, unique_string}
use camblet.Agent.Commands.Dispatch.{Handler}

-- What the code takes from jellydator/ttlcache: a store, from which entries expire.
pub record TtlCache (Store : Type 0) : Type 0 where
  pub delete_expired : Store → Store
  -- An item that is found is touched.
  pub get : String → Store → Option String × Store
  pub set : String → String → Store → Store

pub record Label : Type 0 where
  pub name : String
  pub value : String

-- `response.Labels`, filled from the labels of the metadata
unfoldable pub response_labels : Assoc Bool → List Label → Assoc Bool
unfolding insert
response_labels m [] = m
response_labels m (label ∷ labels) =
    response_labels (insert (concat label.name (concat "=" label.value)) true m) labels

-- What the code reads of a process from gopsutil, procfs and the cgroups of the docker collector,
-- call by call.
pub record Process : Type 0 where
  pub pid : ℕ
  pub new_error : Option Error
  pub cgroups : Fallible (List String)
  pub name : Fallible String
  pub exe : Fallible String
  pub uids : Fallible (List ℤ)
  pub gids : Fallible (List ℤ)
  pub proc_error : Option Error
  pub namespaces : Fallible (List (String × ℕ))

-- `getCMDContextFromPID` in steps that return the context beside an error.
abbrev pub Partial : Type 0
Partial = CommandContext × Option Error

abbrev pub no_context : CommandContext
no_context = record {
  uid = pos 0;
  gid = pos 0;
  pid = pos 0;
  command_name = "";
  command_path = "";
  namespace_ids = record {
    uts = pos 0;
    ipc = pos 0;
    mount = pos 0;
    pid = pos 0;
    network = pos 0;
    time = pos 0;
    cgroup = pos 0;
  };
  cgroup_path = "";
}

abbrev pub step {ℓ} :
    {A : Type ℓ}
    → Fallible A
    → CommandContext
    → (A → CommandContext)
    → (CommandContext → Partial)
    → Partial
step (value a) ctx change next = next (change a)
step (fails e) ctx change next = (ctx, some e)

abbrev pub guard : Option Error → CommandContext → Partial → Partial
guard none ctx next = next
guard (some e) ctx next = (ctx, some e)

abbrev pub first_or {ℓ} : {A : Type ℓ} → A → List A → A
first_or d [] = d
first_or d (x ∷ xs) = x

abbrev pub inodes : Assoc ℕ → List (String × ℕ) → Assoc ℕ
inodes m [] = m
inodes m ((type, inode) ∷ namespaces) = inodes (insert type inode m) namespaces

abbrev pub inode : String → Assoc ℕ → ℤ
inode type m = elim (lookup type m) [ none ↦ pos 0 | some n ↦ pos n ]

abbrev pub namespace_ids_of : List (String × ℕ) → NamespaceIds
namespace_ids_of namespaces =
    let m = inodes [] namespaces in
    record {
      uts = inode "uts" m;
      ipc = inode "ipc" m;
      mount = inode "mnt" m;
      pid = inode "pid" m;
      network = inode "net" m;
      time = inode "time" m;
      cgroup = inode "cgroup" m;
    }

unfoldable pub get_cmd_context_from_pid : Process → Partial
unfolding lookup insert
get_cmd_context_from_pid p = guard p.new_error no_context (
    step p.cgroups (record no_context { pid = pos p.pid })
      (λ paths. record no_context { pid = pos p.pid; cgroup_path = first_or "" paths })
      λ c1.
        step p.name c1 (λ name. record c1 { command_name = name })
          λ c2.
            step p.exe c2 (λ path. record c2 { command_path = path })
              λ c3.
                step p.uids c3 (λ uids. record c3 { uid = first_or (pos 0) uids })
                  λ c4.
                    step p.gids c4 (λ gids. record c4 { gid = first_or (pos 0) gids })
                      λ c5. guard p.proc_error c5 (
                        step p.namespaces c5
                          (λ ns. record c5 { namespace_ids = namespace_ids_of ns })
                          λ c6. (c6, none)))

-- `get_metadata` is what the collector gives for a process, its errors, which are only logged,
-- left out; `marshal` is json.Marshal of the response with these labels.
module _ {Store : Type 0} (cache : TtlCache Store) (get_metadata : ℤ → List Label)
    (marshal : Assoc Bool → Fallible String) where
  abbrev pub remember : CommandContext → Fallible String → Store → (String × Option Error) × Store
  remember context (value js) s = ((js, none), cache.set (unique_string context) js s)
  remember context (fails e) s = (("error", some e), s)

  abbrev pub answer_from : CommandContext → Option String × Store → (String × Option Error) × Store
  answer_from context (some js, s) = ((js, none), s)
  answer_from context (none, s) =
      remember context (marshal (response_labels [] (get_metadata (int32 (uint32 context.pid))))) s

  unfoldable pub augment : Handler Store
  unfolding unique_string response_labels
  augment cmd s =
      ok (answer_from cmd.context (cache.get (unique_string cmd.context) (cache.delete_expired s)))

  -- The command of `init` for a context.
  abbrev pub init_command : CommandContext → Command
  init_command context = record {
    context = context;
    id = "";
    command = "";
    name = "";
    code = [];
    entrypoint = "";
    content = "";
    is_message = false;
  }

  -- `init` over the processes: `tolerated` is whether an error is os.ErrNotExist,
  -- os.ErrPermission or process.ErrorProcessNotRunning.
  abbrev pub skips : (Error → Bool) → Option Error → Bool
  skips tolerated none = false
  skips tolerated (some e) = not (tolerated e)

  unfoldable pub init : (Error → Bool) → List Process → Store → Result Store
  unfolding augment get_cmd_context_from_pid
  init tolerated [] s = ok s
  init tolerated (p ∷ ps) s =
      let (context, e) = get_cmd_context_from_pid p in
      let skipped = init tolerated ps s in
      let handled = augment (init_command context) s >>= λ done. init tolerated ps done.1 in
      if skips tolerated e then skipped else handled
