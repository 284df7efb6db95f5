-- ===== src/Resolve/Platform.antt =====
-- `configure_platform` and `configure_context`: the process-wide conda context.
use text.Mathlib.Text.{starts_with}
use conda_presto.Prelude.{
  String, ◌≡◌, Bool, true, Option, none, some, [], ◌∷◌, arith, ◌==◌, string_eq, option_eq,
  if◌then◌else◌,
}
use conda_presto.OrderedDict.{OrderedDict}

-- The versions of config.py for the virtual packages.
pub record Versions : Type 0 where
  pub glibc : String
  pub linux : String
  pub osx : String
  pub win : String

abbrev pub Overrides : Type 0
Overrides = OrderedDict String String

-- `VIRTUAL_PACKAGES`
abbrev pub virtual_packages : Versions → OrderedDict String Overrides
virtual_packages v =
    ("linux", ("glibc", v.glibc) ∷ ("linux", v.linux) ∷ [])
    ∷ ("osx", ("osx", v.osx) ∷ [])
    ∷ ("win", ("win", v.win) ∷ [])
    ∷ []

-- The module's globals, and the entries of `context._cache_` that are written.
pub record Context : Type 0 where
  pub current_platform : Option String
  pub subdir : Option String
  pub overrides : Overrides
  pub json : Bool
  pub solver : Option String
  pub context_configured : Bool

-- The first prefix that fits.
unfoldable pub find_overrides : OrderedDict String Overrides → String → Overrides
find_overrides [] platform = []
find_overrides ((prefix, pkgs) ∷ rest) platform =
    if starts_with platform prefix then pkgs else find_overrides rest platform

unfoldable pub configure_platform : Versions → String → Context → Context
configure_platform v platform ctx =
    if ctx.current_platform == some platform then ctx else record ctx {
      current_platform = some platform;
      subdir = some platform;
      overrides = find_overrides (virtual_packages v) platform;
    }

unfoldable pub configure_context : Context → Context
configure_context ctx =
    if ctx.context_configured
    then ctx
    else record ctx { json = true; solver = some "rattler"; context_configured = true }

-- What a solve relies on: the context is that of the current platform, and a configured context
-- has the rattler solver.
abbrev PlatformFits : Versions → Context → Option String → Type 0
PlatformFits v ctx none = Unit
PlatformFits v ctx (some p) =
    (ctx.subdir ≡ some p) × (ctx.overrides ≡ find_overrides (virtual_packages v) p)

pub record IsConsistent (v : Versions) (ctx : Context) : Type 0 where
  pub platform : PlatformFits v ctx ctx.current_platform
  pub solver : ctx.context_configured ≡ true → (ctx.json ≡ true) × (ctx.solver ≡ some "rattler")

-- The two calls that every solve makes first leave a context for the wanted platform, also where
-- they skip the work because it was done before.
pub configure-IsConsistent :
    (v : Versions) (platform : String) (ctx : Context)
    → IsConsistent v ctx
    → let ctx' = configure_context (configure_platform v platform ctx) in
      IsConsistent v ctx'
      × (ctx'.subdir ≡ some platform)
      × (ctx'.overrides ≡ find_overrides (virtual_packages v) platform)
      × (ctx'.json ≡ true)
      × (ctx'.solver ≡ some "rattler")
unfolding configure_platform configure_context
configure-IsConsistent v platform ctx h = ground arith
