-- ===== src/Prepare/Ini.antt =====
-- src/prepare.c: how a thread takes over the settings of the thread that created it.
use pthreads.Base.{
  ℕ, ◌≡◌, inl, inr, refl, sym, ap, ◌∙◌, Bool, true, false, not, Option, none, some, List, [], ◌∷◌,
  ◌==◌, if◌then◌else◌, Bool-cases, Option-cases,
}
use pthreads.Zend.Key.{Key, same_key, same_key-eq, same_bytes, same_bytes-eq}
use pthreads.Zend.Hash.{HashApi, lookup, lookup-absent, has_key, IsKeyed, find-update}
use pthreads.Copy.{Engine, ZString, copy_string}
use pthreads.Prepare.Entries.{copy_string-bytes}

-- `zend_ini_entry`, with the value that it had before it was changed.
pub record IniEntry : Type 0 where
  pub value : Option ZString
  pub orig_value : Option ZString
  pub modifiable : ℕ
  pub orig_modifiable : ℕ
  pub modified : Bool

-- What `strcmp` compares: the bytes in front of the first zero.
abbrev pub c_string : List ℕ → List ℕ
c_string [] = []
c_string (b ∷ bs) = if b == 0 then [] else b ∷ c_string bs

-- `on_modify` of a directive is called with the new value, and what it answers is not looked at.
pub record OnModify : Type 0 where
  pub directive : Key
  pub new_value : ZString

module _ (I : HashApi IniEntry) where
  -- `modified_ini_directives` as the names of the directives, where it has been made.
  pub record Settings : Type 0 where
    pub directives : I.Table
    pub modified_directives : Option (List Key)
    pub on_modify_calls : List OnModify

  abbrev pub names_of : Option (List Key) → List Key
  names_of none = []
  names_of (some ks) = ks

  -- The entry after a value other than its own was found.
  abbrev pub settle : Engine → ZString → IniEntry → IniEntry
  settle e new t = record {
    value = some (copy_string e new);
    orig_value = if t.modified then t.orig_value else t.value;
    modifiable = t.modifiable;
    orig_modifiable = if t.modified then t.orig_modifiable else t.modifiable;
    modified = true;
  }

  -- Both have a value, and these differ.
  abbrev pub differ : Option ZString → Option ZString → Bool
  differ (some a) (some b) = not (same_bytes (c_string a.bytes) (c_string b.bytes))
  differ (some a) none = false
  differ none b = false

  abbrev pub take_value : Engine → Key → Option ZString → IniEntry → Settings → Settings
  take_value e k none t s = s
  take_value e k (some new) t s = record {
    directives = I.update s.directives k (settle e new t);
    modified_directives =
        some (
          if t.modified
          then names_of s.modified_directives
          else k ∷ names_of s.modified_directives);
    on_modify_calls = record { directive = k; new_value = new } ∷ s.on_modify_calls;
  }

  -- One round of the loop, for a directive that the thread may have.
  abbrev pub inherit_directive : Engine → Key → IniEntry → Option IniEntry → Settings → Settings
  inherit_directive e k source none s = s
  inherit_directive e k source (some t) s =
      if differ source.value t.value then take_value e k source.value t s else s

  unfoldable pub inherit_directives : Engine → List (Key × IniEntry) → Settings → Settings
  inherit_directives e [] s = s
  inherit_directives e ((k, source) ∷ es) s =
      inherit_directives e es (inherit_directive e k source (I.find s.directives k) s)

  -- `pthreads_prepare_ini`. `no_headers` is what `zend_alter_ini_entry_chars` makes of the two settings
  -- of sessions that send headers.
  unfoldable pub prepare_ini :
      Engine
      → (allow_headers : Bool) → (no_headers : Settings → Settings) → I.Table
      → Settings
      → Settings
  prepare_ini e allow_headers no_headers source s =
      inherit_directives e (I.entries source) (if allow_headers then s else no_headers s)

  abbrev pub settled : Engine → Option ZString → IniEntry → IniEntry
  settled e none t = t
  settled e (some new) t = settle e new t

  -- What becomes of a directive of the thread, by that of the other thread.
  abbrev pub inherited : Engine → Option IniEntry → IniEntry → IniEntry
  inherited e none t = t
  inherited e (some source) t = if differ source.value t.value then settled e source.value t else t

  abbrev pub inherited_entry : Engine → Option IniEntry → Option IniEntry → Option IniEntry
  inherited_entry e source none = none
  inherited_entry e source (some t) = some (inherited e source t)

  inherit_directive-find :
      (e : Engine) (k j : Key) (source : IniEntry) (o : Option IniEntry) (s : Settings)
      → I.find s.directives k ≡ o
      → I.find (inherit_directive e k source o s).directives j
        ≡ (if same_key k j then inherited_entry e (some source) o else I.find s.directives j)
  inherit_directive-find e k j source none s h = elim (Bool-cases (same_key k j)) [
    | inl same ↦ rw (same, ← same_key-eq k j same) h
    | inr other ↦ rw other refl
  ]
  inherit_directive-find e k j source (some t) s h = go source.value refl
    where
      unchanged : I.find s.directives j ≡ (if same_key k j then some t else I.find s.directives j)
      unchanged = elim (Bool-cases (same_key k j)) [
        | inl same ↦ rw (same, ← same_key-eq k j same) h
        | inr other ↦ rw other refl
      ]

      go :
          (v : Option ZString)
          → source.value ≡ v
          → I.find (inherit_directive e k source (some t) s).directives j
            ≡ (if same_key k j then some (inherited e (some source) t) else I.find s.directives j)
      go none e' = rw (ap (λ (v : Option ZString). differ v t.value) e') unchanged
      go (some new) e' = elim (Bool-cases (differ source.value t.value)) [
        | inr same_value ↦ rw same_value unchanged
        | inl differs ↦ rw (differs, e') (find-update I s.directives k j (settle e new t))
      ]

  -- Two keys of which only the first one is the same as a third.
  absent :
      (k j : Key) (es : List (Key × IniEntry))
      → same_key k j ≡ true
      → has_key k es ≡ false
      → lookup j es ≡ none
  absent k j es same h =
      lookup-absent j es (ap (λ (i : Key). has_key i es) (sym (same_key-eq k j same)) ∙ h)

  inherit_directives-find :
      (e : Engine) (es : List (Key × IniEntry)) (j : Key) (s : Settings)
      → IsKeyed es
      → I.find (inherit_directives e es s).directives j
        ≡ inherited_entry e (lookup j es) (I.find s.directives j)
  unfolding inherit_directives
  inherit_directives-find e [] j s keyed = elim (Option-cases (I.find s.directives j)) [
    | inl nothing ↦ rw nothing refl
    | inr (t, there) ↦ rw there refl
  ]
  inherit_directives-find e ((k, source) ∷ es) j s keyed =
      inherit_directives-find e es j (inherit_directive e k source (I.find s.directives k) s)
        (keyed.1)
      ∙ rw (inherit_directive-find e k j source (I.find s.directives k) s refl)
          (elim (Bool-cases (same_key k j)) [
            | inl same ↦
                rw (same, absent k j es same (keyed.0), same_key-eq k j same)
                  (inherited_none (inherited_entry e (some source) (I.find s.directives j)))
            | inr other ↦ rw other refl
          ])
    where
      inherited_none : (o : Option IniEntry) → inherited_entry e none o ≡ o
      inherited_none none = refl
      inherited_none (some t) = refl

  -- What the text of a setting is to the code.
  abbrev pub text_of : Option ZString → Option (List ℕ)
  text_of none = none
  text_of (some v) = some (c_string v.bytes)

  pub inherited-Inherited :
      (e : Engine) (v v' : ZString) (source t : IniEntry)
      → source.value ≡ some v
      → t.value ≡ some v'
      → text_of (inherited e (some source) t).value ≡ text_of source.value
  inherited-Inherited e v v' source t there here =
      elim (Bool-cases (same_bytes (c_string v.bytes) (c_string v'.bytes))) [
        | inl same ↦ rw (there, here, same) (ap some (sym (same_bytes-eq _ _ same)))
        | inr other ↦ rw (there, here, other) (rw (copy_string-bytes e v) refl)
      ]

  inherited-kept :
      (e : Engine) (o : Option ZString) (source t : IniEntry)
      → source.value ≡ o
      → (inherited e (some source) t).modifiable ≡ t.modifiable
  inherited-kept e none source t h = rw (ap (λ (v : Option ZString). differ v t.value) h) refl
  inherited-kept e (some v) source t h = elim (Bool-cases (differ source.value t.value)) [
    | inl differs ↦ rw (differs, h) refl
    | inr same ↦ rw same refl
  ]

  -- Once the settings are taken over, each directive of the thread is what `inherited` makes of it by
  -- that of the other thread, and no directive is added; one that both threads have with a value has
  -- the text of the other thread's value, and may be changed by whom it could be changed before.
  pub prepare_ini-Inherited :
      (e : Engine) (allow_headers : Bool) (no_headers : Settings → Settings) (source : I.Table)
      (s : Settings) (k : Key) (a t : IniEntry) (v v' : ZString)
      → I.find source k ≡ some a
      → I.find (if allow_headers then s else no_headers s).directives k ≡ some t
      → a.value ≡ some v
      → t.value ≡ some v'
      → ((j : Key)
          → I.find (prepare_ini e allow_headers no_headers source s).directives j
            ≡ inherited_entry e
                (I.find source j)
                (I.find (if allow_headers then s else no_headers s).directives j))
        × (I.find (prepare_ini e allow_headers no_headers source s).directives k
            ≡ some (inherited e (some a) t))
        × (text_of (inherited e (some a) t).value ≡ text_of a.value)
        × ((inherited e (some a) t).modifiable ≡ t.modifiable)
  unfolding prepare_ini
  prepare_ini-Inherited e allow_headers no_headers source s k a t v v' theirs ours value value' =
      let start = if allow_headers then s else no_headers s in
      let all : (j : Key)
          → I.find (inherit_directives e (I.entries source) start).directives j
            ≡ inherited_entry e (I.find source j) (I.find start.directives j) =
        λ j.
          inherit_directives-find e (I.entries source) j start (I.keyed source)
          ∙ ap (λ (x : Option IniEntry). inherited_entry e x (I.find start.directives j))
              (sym (I.find_entries source j)) in
      (
        all,
        all k
            ∙ ap (λ (x : Option IniEntry). inherited_entry e x (I.find start.directives k)) theirs
            ∙ ap (inherited_entry e (some a)) ours,
        inherited-Inherited e v v' a t value value',
        inherited-kept e (some v) a t value,
      )
