-- ===== src/Server/Protocol/Targets.antt =====
-- What an accepted target looks like, and that it can be written as one text with slashes.
use ptymux.Std.Utf8.{runes, valid}
use ptymux.Std.Utf8.Ascii.{runes-lacks}
use ptymux.Std.Strings.{split, join}
use ptymux.Std.Strings.SplitJoin.{split-join, Lacks}
use ptymux.Server.Protocol.{
  Field, session_field, pane_field, tab_field, InvalidRequest, ◌or_else◌, is_empty, is_reserved,
  any_reserved, is_control, max_target_component_bytes, validate_target_component,
  validate_complete_target,
}
use ptymux.Prelude.{
  ℕ, ◌≤◌, ◌<◌, ◌≡◌, refl, ◌≢◌, ◌⊎◌, inl, inr, true, false, Option, none, some, List, [], ◌∷◌, arith,
  ltb, Bool-cases, length, All, Bytes,
}

any_reserved-lacks : (rs : List ℕ) → any_reserved rs ≡ false → All (λ r. r ≢ b'/') rs
unfolding any_reserved is_reserved
any_reserved-lacks [] h = tt
any_reserved-lacks (r ∷ rs) h = ground (arith, any_reserved-lacks rs)

not_control : (r : ℕ) → is_reserved r ≡ false → (0x20 ≤ r) × ((r < 0x7f) ⊎ (0xa0 ≤ r))
unfolding is_reserved is_control
not_control r h = (
  ground arith,
  elim (Bool-cases (ltb r 0x7f)) [ inl e ↦ inl (ground arith) | inr e ↦ inr (ground arith) ],
)

any_reserved-control :
    (rs : List ℕ) → any_reserved rs ≡ false → All (λ r. (0x20 ≤ r) × ((r < 0x7f) ⊎ (0xa0 ≤ r))) rs
unfolding any_reserved
any_reserved-control [] h = tt
any_reserved-control (r ∷ rs) h =
    (not_control r (ground arith), any_reserved-control rs (ground arith))

-- What a client may rely on in an accepted component: its length, its encoding, and that it has no
-- slash, no NUL and no other control character (U+0000 to U+001F, U+007F to U+009F).
pub record IsComponent (value : Bytes) : Type 0 where
  pub nonempty : 0 < length value
  pub bounded : length value ≤ max_target_component_bytes
  pub utf8 : valid value ≡ true
  pub no_slash : Lacks b'/' value
  pub no_control : All (λ r. (0x20 ≤ r) × ((r < 0x7f) ⊎ (0xa0 ≤ r))) (runes value)

is_empty-length : (s : Bytes) → is_empty s ≡ false → 0 < length s
unfolding is_empty
is_empty-length [] h = cc
is_empty-length (c ∷ s) h = omega arith

validate_target_component-IsComponent :
    (field : Field) (value : Bytes)
    → validate_target_component field value ≡ none
    → IsComponent value
unfolding validate_target_component
validate_target_component-IsComponent field value h = record {
  nonempty = is_empty-length value (ground arith);
  bounded = ground arith;
  utf8 = ground arith;
  no_slash = runes-lacks b'/' value (omega arith) (any_reserved-lacks (runes value) (ground arith));
  no_control = any_reserved-control (runes value) (ground arith);
}

pub or_else-none : (a b : Option InvalidRequest) → (a or_else b) ≡ none → (a ≡ none) × (b ≡ none)
or_else-none none b h = (refl, h)
or_else-none (some e) b h = cc

pub record IsTarget (session pane tab : Bytes) : Type 0 where
  pub session_ok : IsComponent session
  pub pane_ok : IsComponent pane
  pub tab_ok : IsComponent tab

pub validate_complete_target-IsTarget :
    (session pane tab : Bytes)
    → validate_complete_target session pane tab ≡ none
    → IsTarget session pane tab
unfolding validate_complete_target
validate_complete_target-IsTarget session pane tab h =
    let (s, rest) =
      or_else-none (validate_target_component session_field session)
        (validate_target_component pane_field pane or_else validate_target_component tab_field tab)
        h in
    let (p, t) =
      or_else-none (validate_target_component pane_field pane)
        (validate_target_component tab_field tab) rest in
    record {
      session_ok = validate_target_component-IsComponent session_field session s;
      pane_ok = validate_target_component-IsComponent pane_field pane p;
      tab_ok = validate_target_component-IsComponent tab_field tab t;
    }

-- An accepted target written with slashes, as clients write it, is split into its components again.
pub split-join-validate_complete_target :
    (session pane tab : Bytes)
    → validate_complete_target session pane tab ≡ none
    → split b'/' (join (b'/' ∷ []) (session ∷ pane ∷ tab ∷ [])) ≡ session ∷ pane ∷ tab ∷ []
split-join-validate_complete_target session pane tab h =
    let v = validate_complete_target-IsTarget session pane tab h in
    split-join b'/' session (pane ∷ tab ∷ [])
      (v.session_ok.no_slash, (v.pane_ok.no_slash, (v.tab_ok.no_slash, tt)))
