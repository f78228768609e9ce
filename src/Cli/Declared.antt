-- ===== src/Cli/Declared.antt =====
-- The commands of cli/index.js use declared options only, so that it starts with any configuration.
use rainbow_bridge_cli.Base.{
  String, ◌≡◌, refl, ◌===◌, eq_iff, Bool, true, false, none, some, List, [], ◌∷◌, is_some,
  if◌then◌else◌, Bool-cases, inl, inr, Option-cases, sym, ◌∙◌, ap,
}
use rainbow_bridge_cli.Base.Dict
use rainbow_bridge_cli.Base.Io.{ok}
use rainbow_bridge_cli.Config.{
  Declaration, RainbowConfig, Configstore, ChangeCase, CommandOption, declare_option, or_empty,
  add_options, command_option, maybe_get_param, registered_default,
}
use rainbow_bridge_cli.Cli.{OptionCall, Command}
use rainbow_bridge_cli.Cli.Setup.{
  declarations, commands, declare_all, find_call, add_commands, setup,
}

-- No option is declared twice.
unfoldable pub unique : List OptionCall → Bool
unique [] = true
unique (d ∷ ds) = if is_some (find_call d.name ds) then false else unique ds

unfoldable pub all_declared : List OptionCall → List String → Bool
all_declared ds [] = true
all_declared ds (o ∷ os) = if is_some (find_call o ds) then all_declared ds os else false

unfoldable pub commands_declared : List OptionCall → List Command → Bool
commands_declared ds [] = true
commands_declared ds (c ∷ cs) = if all_declared ds c.options then commands_declared ds cs else false

-- What a call of `declareOption` stores.
abbrev pub declaration : OptionCall → Declaration
declaration d = record {
  description = d.description;
  default_value = or_empty d.default_value;
  no_config = d.no_config;
}

module _ (cases : ChangeCase) (ds : List OptionCall) where
  -- Option for option, what is registered with commander is what is declared.
  pub data Registers : List String → List CommandOption → Type 0 where
    none_left : Registers [] []
    registers :
        {o : String} {os : List String} {r : CommandOption} {rs : List CommandOption}
        (d : OptionCall)
        → find_call o ds ≡ some d
        → r.option ≡ o
        → r.flag ≡ cases.param_case o
        → r.description ≡ d.description
        → Registers os rs
        → Registers (o ∷ os) (r ∷ rs)

  pub data RegistersAll : List Command → List (List CommandOption) → Type 0 where
    no_command : RegistersAll [] []
    command_next :
        {c : Command} {cs : List Command} {rs : List CommandOption}
        {rss : List (List CommandOption)}
        → Registers c.options rs
        → RegistersAll cs rss
        → RegistersAll (c ∷ cs) (rs ∷ rss)

some_is_none : (d : OptionCall) → some d ≡ none → ⊥
some_is_none d h = cc

same_declaration : (e d : OptionCall) → some e ≡ some d → declaration e ≡ declaration d
same_declaration e d h = let q : e ≡ d = cc in ap declaration q

false_is_true : false ≡ true → ⊥
false_is_true h = cc

module _ {S : Type 0} where
  declare_all-unknown :
      (o : String) (ds : List OptionCall) (c : RainbowConfig S)
      → find_call o ds ≡ none
      → Dict.lookup o (declare_all ds c).param_declarations ≡ Dict.lookup o c.param_declarations
  unfolding declare_all find_call declare_option
  declare_all-unknown o [] c h = refl
  declare_all-unknown o (d ∷ ds) c h = elim (Bool-cases (d.name === o)) [
    | inl same ↦ absurd (some_is_none d (rw same at h))
    | inr differ ↦
        declare_all-unknown o ds _ (rw differ at h)
        ∙ (Dict.lookup-insert d.name o (declaration d) c.param_declarations ∙ rw differ refl)
  ]

  declare_all-known :
      (o : String) (d : OptionCall) (ds : List OptionCall) (c : RainbowConfig S)
      → unique ds ≡ true
      → find_call o ds ≡ some d
      → Dict.lookup o (declare_all ds c).param_declarations ≡ some (declaration d)
  unfolding declare_all find_call declare_option unique
  declare_all-known o d [] c u h = absurd (some_is_none d (sym h))
  declare_all-known o d (e ∷ ds) c u h = elim (Option-cases (find_call e.name ds)) [
    | inr (x, found) ↦ absurd (false_is_true (rw found at u))
    | inl fresh ↦ elim (Bool-cases (e.name === o)) [
      | inl same ↦
          let q : find_call o ds ≡ none = rw ((eq_iff e.name o).0 same) at fresh in
          declare_all-unknown o ds _ q
          ∙ (Dict.lookup-insert e.name o (declaration e) c.param_declarations
              ∙ (rw same (ap some (same_declaration e d (rw same at h)))))
      | inr differ ↦ declare_all-known o d ds _ (rw fresh at u) (rw differ at h)
    ]
  ]

  -- What `addOptions` tells commander of a declared option.
  abbrev offered :
      Configstore S → ChangeCase → String → RainbowConfig S → Declaration → CommandOption
  offered store cases option c d = record {
    flag = cases.param_case option;
    placeholder = cases.snake_case option;
    description = d.description;
    option = option;
    default_value = registered_default (maybe_get_param store cases (cases.param_case option) c) d;
  }

  add_options-Registers :
      (store : Configstore S) (cases : ChangeCase) (ds : List OptionCall) (os : List String)
      (c : RainbowConfig S)
      → unique ds ≡ true
      → all_declared ds os ≡ true
      → (rs : List CommandOption) × (add_options store cases os (declare_all ds c) ≡ ok rs)
        × Registers cases ds os rs
  unfolding add_options command_option all_declared
  add_options-Registers store cases ds [] c u h = ([], refl, none_left)
  add_options-Registers store cases ds (o ∷ os) c u h = elim (Option-cases (find_call o ds)) [
    | inl missing ↦ absurd (false_is_true (rw missing at h))
    | inr (d, found) ↦
        let (rs, e, r) = add_options-Registers store cases ds os c u (rw found at h) in
        (
          _ ∷ rs,
          rw (declare_all-known o d ds c u found, e) refl,
          registers {r = offered store cases o (declare_all ds c) (declaration d)} d found refl refl
              refl r,
        )
  ]

  add_commands-RegistersAll :
      (store : Configstore S) (cases : ChangeCase) (ds : List OptionCall) (cs : List Command)
      (c : RainbowConfig S)
      → unique ds ≡ true
      → commands_declared ds cs ≡ true
      → (rss : List (List CommandOption)) × (add_commands store cases cs (declare_all ds c)
          ≡ ok rss)
        × RegistersAll cases ds cs rss
  unfolding add_commands commands_declared
  add_commands-RegistersAll store cases ds [] c u h = ([], refl, no_command)
  add_commands-RegistersAll store cases ds (x ∷ cs) c u h =
      elim (Bool-cases (all_declared ds x.options)) [
        | inr missing ↦ absurd (false_is_true (rw missing at h))
        | inl declared ↦
            let (rs, e, r) = add_options-Registers store cases ds x.options c u declared in
            let (rss, e', r') =
              add_commands-RegistersAll store cases ds cs c u (rw declared at h) in
            (rs ∷ rss, rw (e, e') refl, command_next r r')
      ]

declarations-unique :
    (join : String → String → String) (dir : String) → unique (declarations join dir) ≡ true
unfolding unique find_call
declarations-unique join dir = refl

commands-declared :
    (join : String → String → String) (dir : String)
    → commands_declared (declarations join dir) commands ≡ true
unfolding commands_declared all_declared find_call
commands-declared join dir = refl

-- With every configuration and wherever the tool is installed, every option of every command is
-- declared: the tool registers all of them without an exception, option for option with its flag and
-- the description of its declaration.
pub setup-RegistersAll :
    {S : Type 0} (store : Configstore S) (cases : ChangeCase) (join : String → String → String)
    (dir : String) (c : RainbowConfig S)
    → (rss : List (List CommandOption)) × (setup store cases join dir c ≡ ok rss)
      × RegistersAll cases (declarations join dir) commands rss
unfolding setup
setup-RegistersAll store cases join dir c =
    add_commands-RegistersAll store cases (declarations join dir) commands c
      (declarations-unique join dir) (commands-declared join dir)
