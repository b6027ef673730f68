-- ===== src/Config/Endpoints/Split.antt =====
-- What the list of endpoints holds, and that it reads what a list of endpoints is written as.
use Prim.Native.Char.{code, Char}
use etcdmonitor.Prelude.{
  String, ◌≡◌, ◌≢◌, refl, ap, ◌∙◌, false, List, [], ◌∷◌, ◌==◌, nat_eq, string_eq, Bool-cases, inl,
  inr,
}
use etcdmonitor.Config.{Config}
use etcdmonitor.Config.Endpoints.{
  trim_space, trim_left, trim_right, is_space, prefix, split_commas, named_parts, default_endpoint,
  or_default, etcd_endpoints,
}
use etcdmonitor.Config.Endpoints.Trim.{NoComma, trim_space-NoComma, trim_space-twice}

-- An endpoint has no comma, no space at its ends, and is not empty.
abbrev pub IsEndpoint : String → Type 0
IsEndpoint x = NoComma x × (trim_space x ≡ x) × ((x == "") ≡ false)

abbrev pub AllEndpoints : List String → Type 0
AllEndpoints [] = Unit
AllEndpoints (x ∷ xs) = IsEndpoint x × AllEndpoints xs

abbrev AllNoComma : List String → Type 0
AllNoComma [] = Unit
AllNoComma (x ∷ xs) = NoComma x × AllNoComma xs

-- `x + "," + s`, and a list joined by commas
abbrev comma_then : String → String → String
comma_then String.[] s = String.◌∷◌ "," s
comma_then (String.◌∷◌ c x) s = String.◌∷◌ c (comma_then x s)

abbrev pub joined : String → List String → String
joined x [] = x
joined x (y ∷ ys) = comma_then x (joined y ys)

split_commas_whole : (x : String) → NoComma x → split_commas x ≡ (x, [])
unfolding split_commas prefix
split_commas_whole String.[] h = refl
split_commas_whole (String.◌∷◌ c x) h = ap (prefix c) (split_commas_whole x h.1) ∙ rw h.0 refl

split_commas-comma_then :
    (x s : String)
    → NoComma x
    → split_commas (comma_then x s) ≡ (x, (split_commas s).0 ∷ (split_commas s).1)
unfolding split_commas prefix
split_commas-comma_then String.[] s h = refl
split_commas-comma_then (String.◌∷◌ c x) s h =
    ap (prefix c) (split_commas-comma_then x s h.1) ∙ rw h.0 refl

split_commas-joined :
    (x : String) (xs : List String) → AllEndpoints (x ∷ xs) → split_commas (joined x xs) ≡ (x, xs)
split_commas-joined x [] h = split_commas_whole x h.0.0
split_commas-joined x (y ∷ ys) h =
    split_commas-comma_then x (joined y ys) h.0.0
    ∙ ap (λ p. (x, p.0 ∷ p.1)) (split_commas-joined y ys h.1)

prefix-NoComma :
    (c : Char) (p : String) (ps : List String)
    → AllNoComma (p ∷ ps)
    → AllNoComma ((prefix c (p, ps)).0 ∷ (prefix c (p, ps)).1)
unfolding prefix
prefix-NoComma c p ps h = elim (Bool-cases (code c == 44)) [
  | inl e ↦ rw e (tt, h)
  | inr n ↦ rw n ((n, h.0), h.1)
]

split_commas-NoComma : (s : String) → AllNoComma ((split_commas s).0 ∷ (split_commas s).1)
unfolding split_commas
split_commas-NoComma String.[] = (tt, tt)
split_commas-NoComma (String.◌∷◌ c s) =
    prefix-NoComma c (split_commas s).0 (split_commas s).1 (split_commas-NoComma s)

named_parts-AllEndpoints : (ps : List String) → AllNoComma ps → AllEndpoints (named_parts ps)
unfolding named_parts
named_parts-AllEndpoints [] h = tt
named_parts-AllEndpoints (p ∷ ps) h = elim (Bool-cases (trim_space p == "")) [
  | inl e ↦ rw e (named_parts-AllEndpoints ps h.1)
  | inr n ↦
      rw n ((trim_space-NoComma p h.0, trim_space-twice p, n), named_parts-AllEndpoints ps h.1)
]

named_parts_all : (ps : List String) → AllEndpoints ps → named_parts ps ≡ ps
unfolding named_parts
named_parts_all [] h = refl
named_parts_all (p ∷ ps) h = rw h.0.1 (rw h.0.2 (ap (p ∷◌) (named_parts_all ps h.1)))

default_endpoint-IsEndpoint : IsEndpoint default_endpoint
unfolding trim_space trim_left trim_right is_space
default_endpoint-IsEndpoint = (
  (
    refl,
    (
      refl,
      (
        refl,
        (
          refl,
          (
            refl,
            (
              refl,
              (
                refl,
                (
                  refl,
                  (
                    refl,
                    (
                      refl,
                      (
                        refl,
                        (
                          refl,
                          (
                            refl,
                            (refl, (refl, (refl, (refl, (refl, (refl, (refl, (refl, tt)))))))),
                          ),
                        ),
                      ),
                    ),
                  ),
                ),
              ),
            ),
          ),
        ),
      ),
    ),
  ),
  refl,
  refl,
)

or_default-AllEndpoints :
    (es : List String) → AllEndpoints es → AllEndpoints (or_default es) × (or_default es ≢ [])
unfolding or_default
or_default-AllEndpoints [] h = ((default_endpoint-IsEndpoint, tt), λ e. cc)
or_default-AllEndpoints (e ∷ es) h = (h, λ p. cc)

-- The list of endpoints is not empty, whatever the configuration says, and each endpoint in it has
-- no comma and no space at its ends and is not empty.
pub etcd_endpoints-AllEndpoints :
    (cfg : Config) → AllEndpoints (etcd_endpoints cfg) × (etcd_endpoints cfg ≢ [])
unfolding etcd_endpoints
etcd_endpoints-AllEndpoints cfg =
    let parts = split_commas cfg.etcd.endpoint in
    or_default-AllEndpoints (named_parts (parts.0 ∷ parts.1))
      (named_parts-AllEndpoints (parts.0 ∷ parts.1) (split_commas-NoComma cfg.etcd.endpoint))

-- A list of endpoints that is written with commas between them is read as that list.
pub etcd_endpoints-joined :
    (cfg : Config) (e : String) (es : List String)
    → AllEndpoints (e ∷ es)
    → cfg.etcd.endpoint ≡ joined e es
    → etcd_endpoints cfg ≡ e ∷ es
unfolding etcd_endpoints or_default
etcd_endpoints-joined cfg e es h written =
    ap (λ s. or_default (named_parts ((split_commas s).0 ∷ (split_commas s).1))) written
    ∙ ap (λ p. or_default (named_parts (p.0 ∷ p.1))) (split_commas-joined e es h)
    ∙ ap or_default (named_parts_all (e ∷ es) h)
