-- ===== src/Activator/Commands/Patches.antt =====
-- `patchInternal` of packages/workflow/src/workflow.ts: how often a patch marker is recorded.
use temporalio_sdk_typescrip.Prelude.{
  ℕ, ◌+◌, ◌≤◌, ◌≡◌, refl, Bool, if◌then◌else◌, ◌||◌, some, List, [], ◌∷◌, ◌++◌, String, str_eq,
  eq_iff, any, arith,
}
use temporalio_sdk_typescrip.Activator.{Activator, Command, set_patch_marker, push_command}
use temporalio_sdk_typescrip.Activator.Jobs.{has_text, add_text}
use temporalio_sdk_typescrip.Activator.Commands.{patch_internal}

abbrev pub is_marker : String → Command → ℕ
is_marker id (set_patch_marker other _) = if str_eq other id then 1 else 0
is_marker id _ = 0

abbrev pub markers : String → List Command → ℕ
markers id [] = 0
markers id (c ∷ cs) = is_marker id c + markers id cs

markers-append :
    (id : String) (cs ds : List Command) → markers id (cs ++ ds) ≡ markers id cs + markers id ds
markers-append id [] ds = omega arith
markers-append id (c ∷ cs) ds = omega (arith, markers-append id cs ds)

-- A run of `patched` and `deprecatePatch` calls.
abbrev pub patch_all : List (String × Bool) → Activator → Activator
patch_all [] a = a
patch_all ((id, deprecated) ∷ calls) a = patch_all calls (patch_internal id deprecated a).1

abbrev pub unsent : String → Activator → ℕ
unsent id a = if has_text id a.sent_patches then 0 else 1

any-append : (p : String → Bool) (l m : List String) → any p (l ++ m) ≡ (any p l || any p m)
any-append p [] m = refl
any-append p (x ∷ l) m = ground (arith, any-append p l m)

has_text-add_text :
    (id other : String) (l : List String)
    → has_text id (add_text other l) ≡ (has_text id l || str_eq other id)
has_text-add_text id other l =
    ground (arith, any-append (λ t. str_eq t id) l (other ∷ []), eq_iff other id)

patch_internal-markers :
    (id other : String) (deprecated : Bool) (a : Activator)
    → let b = (patch_internal other deprecated a).1 in
      markers id b.commands + unsent id b ≤ markers id a.commands + unsent id a
unfolding patch_internal push_command
patch_internal-markers id other deprecated a = ground (
  arith,
  markers-append id a.commands (set_patch_marker other deprecated ∷ []),
  has_text-add_text id other a.sent_patches,
  eq_iff other id,
)

patch_all-potential :
    (id : String) (calls : List (String × Bool)) (a : Activator)
    → markers id (patch_all calls a).commands + unsent id (patch_all calls a)
      ≤ markers id a.commands + unsent id a
patch_all-potential id [] a = omega arith
patch_all-potential id ((other, d) ∷ calls) a = omega (
  arith,
  patch_internal-markers id other d a,
  patch_all-potential id calls (patch_internal other d a).1,
)

-- However often `patched` and `deprecatePatch` are called, and for whatever patches, at most one
-- marker of a patch is added to the commands, and none when the marker was sent before.
pub patch_all-markers :
    (id : String) (calls : List (String × Bool)) (a : Activator)
    → markers id (patch_all calls a).commands
      ≤ markers id a.commands + (if has_text id a.sent_patches then 0 else 1)
patch_all-markers id calls a = omega (arith, patch_all-potential id calls a)

-- A second call for a patch answers as the first did and changes nothing, if the workflow has
-- started.
pub patch_internal-again :
    (id : String) (d e : Bool) (a : Activator) (w : ℕ)
    → a.workflow ≡ some w
    → patch_internal id e (patch_internal id d a).1 ≡ patch_internal id d a
unfolding patch_internal push_command
patch_internal-again id d e a w h =
    ground (arith, has_text-add_text id id a.sent_patches, eq_iff id id)
