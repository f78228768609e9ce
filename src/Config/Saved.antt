-- ===== src/Config/Saved.antt =====
-- What `saveConfig` of utils/config/index.js keeps for the next run of the tool.
use rainbow_bridge_cli.Base.{
  String, true, false, some, [], ◌∷◌, if◌then◌else◌, ◌≡◌, refl, ◌===◌, eq_iff, ◌∙◌, sym, Bool-cases,
  inl, inr,
}
use rainbow_bridge_cli.Base.Dict
use rainbow_bridge_cli.Base.Dict.{Dict}
use rainbow_bridge_cli.Config.{
  OptionValue, Param, RainbowConfig, Configstore, ChangeCase, maybe_get_param, save_config,
  write_params,
}

-- The keys of the file that two parameters have, differ.
unfoldable pub Apart : (String → String) → String → Dict Param → Type 0
Apart key name [] = Unit
Apart key name ((other, p) ∷ d) = ((key other === key name) ≡ false) × Apart key name d

unfoldable pub Distinct : (String → String) → Dict Param → Type 0
Distinct key [] = Unit
Distinct key ((name, p) ∷ d) = Apart key name d × Distinct key d

-- What the package's documentation promises of a key that is set to a defined value.
pub record KeepsEntries {S : Type 0} (store : Configstore S) : Type 0 where
  pub get_set :
      (k j : String) (v : OptionValue) (s : S)
      → store.get j (store.set k (some v) s) ≡ (if k === j then some v else store.get j s)
  pub has_set :
      (k j : String) (v : OptionValue) (s : S)
      → store.has j (store.set k (some v) s) ≡ (if k === j then true else store.has j s)

unfoldable pub Defined : Dict Param → Type 0
Defined [] = Unit
Defined ((name, p) ∷ d) = ((v : OptionValue) × (p.value ≡ some v)) × Defined d

-- The next run of the tool: nothing processed yet.
unfoldable pub restart : {S : Type 0} → RainbowConfig S → RainbowConfig S
restart c = record c { param_values = [] }

missing : (name : String) (p : Param) → Dict.lookup name [] ≡ some p → ⊥
unfolding Dict.lookup
missing name p h = cc

value_of : (q p : Param) (v : OptionValue) → some q ≡ some p → p.value ≡ some v → q.value ≡ some v
value_of q p v h e = let same : q ≡ p = cc in rw same e

module _ {S : Type 0} (store : Configstore S) (cases : ChangeCase) (laws : KeepsEntries store) where
  write_params-other :
      (name : String) (d : Dict Param) (s : S)
      → Apart cases.camel_case name d
      → Defined d
      → (store.get (cases.camel_case name) (write_params store cases d s)
          ≡ store.get (cases.camel_case name) s)
        × (store.has (cases.camel_case name) (write_params store cases d s)
            ≡ store.has (cases.camel_case name) s)
  unfolding write_params Apart Defined
  write_params-other name [] s a d = (refl, refl)
  write_params-other name ((other, p) ∷ rest) s (a, apart) ((v, e), d) =
      let w = write_params-other name rest (store.set (cases.camel_case other) p.value s) apart d in
      (
        w.0 ∙ rw e (laws.get_set (cases.camel_case other) (cases.camel_case name) v s ∙ rw a),
        w.1 ∙ rw e (laws.has_set (cases.camel_case other) (cases.camel_case name) v s ∙ rw a),
      )

  own_head :
      (name : String) (v : OptionValue) (other : String) (q : Param) (rest : Dict Param) (s : S)
      → Apart cases.camel_case other rest
      → Defined rest
      → other ≡ name
      → q.value ≡ some v
      → (store.get
            (cases.camel_case name)
            (write_params store cases rest (store.set (cases.camel_case other) q.value s))
          ≡ some v)
        × (store.has
              (cases.camel_case name)
              (write_params store cases rest (store.set (cases.camel_case other) q.value s))
            ≡ true)
  own_head name v other q rest s apart d same e =
      let key = cases.camel_case name in
      let w =
        write_params-other other rest (store.set (cases.camel_case other) q.value s) apart d in
      rw (← same) (
        w.0
            ∙ rw e (
                laws.get_set (cases.camel_case other) (cases.camel_case other) v s
                ∙ rw ((eq_iff (cases.camel_case other) (cases.camel_case other)).1 refl)),
        w.1
            ∙ rw e (
                laws.has_set (cases.camel_case other) (cases.camel_case other) v s
                ∙ rw ((eq_iff (cases.camel_case other) (cases.camel_case other)).1 refl)),
      )

  write_params-own :
      (name : String) (v : OptionValue) (p : Param) (d : Dict Param) (s : S)
      → Distinct cases.camel_case d
      → Defined d
      → p.value ≡ some v
      → Dict.lookup name d ≡ some p
      → (store.get (cases.camel_case name) (write_params store cases d s) ≡ some v)
        × (store.has (cases.camel_case name) (write_params store cases d s) ≡ true)
  unfolding write_params Distinct Defined
  write_params-own name v p [] s x y e h = absurd (missing name p h)
  write_params-own name v p ((other, q) ∷ rest) s (apart, x) (yq, y) e h =
      elim (Bool-cases (other === name)) [
        | inl same ↦
            own_head name v other q rest s apart y ((eq_iff other name).0 same)
              (value_of q p v (rw (Dict.lookup-cons name other q rest, same) at h) e)
        | inr differ ↦
            write_params-own name v p rest _ x y e
              (rw (Dict.lookup-cons name other q rest, differ) at h)
      ]

  -- If every processed parameter has a defined value and no two of them have the same key in the
  -- file, then the next run reads the value of each of them that this run has saved: whether it came
  -- from an argument, a default, the file or, against the documentation, an environment variable, and
  -- whether or not it is declared to stay out of the file.
  pub restart-save_config :
      (name : String) (p : Param) (v : OptionValue) (c : RainbowConfig S)
      → Distinct cases.camel_case c.param_values
      → Defined c.param_values
      → Dict.lookup name c.param_values ≡ some p
      → p.value ≡ some v
      → maybe_get_param store cases name (restart (save_config store cases c))
        ≡ maybe_get_param store cases name c
  unfolding maybe_get_param restart save_config Dict.lookup
  restart-save_config name p v c x y h e =
      let w = write_params-own name v p c.param_values c.config_file x y e h in
      rw (w.1, w.0, h) (sym e)
