-- ===== src/TraceState/Members.antt =====
-- The members that are kept of a header.
use mathlib.Core.List.{append_assoc, append-nil}
use monis_agent.Common.{
  ◌≡◌, refl, ap, sym, ◌∙◌, subst, List, [], ◌∷◌, ◌++◌, map, none, some, Bool, true, false, ◌&&◌,
  if◌then◌else◌, either, some_inj, none-some, false-true, Option-cases, inl, inr,
}
use monis_agent.Common.Text.{Text, text_eq}
use monis_agent.Common.Split.{lacks, split, trim, AllLack}
use monis_agent.Common.Trimmed.{all_of-trim, trim-trim}
use monis_agent.TraceState.{
  comma, equals, ListMembers, first_of, nr_key, is_present, add_parts, add_member, add_members,
}

abbrev is_ours : Text → Text → Bool
is_ours trusted_key vendor_key = is_present trusted_key && text_eq vendor_key (nr_key trusted_key)

-- The key of a member.
abbrev pub vendor_in : List Text → Text
vendor_in [] = []
vendor_in (v ∷ ps) = v

abbrev pub vendor_of : Text → Text
vendor_of x = vendor_in (split equals x)

-- A member that is kept: it is trimmed and not empty, has no comma, and is a key and a value of another
-- vendor.
pub record IsKept (trusted_key x : Text) : Type 0 where
  pub is_trimmed : trim x ≡ x
  pub has_no_comma : lacks comma x ≡ true
  pub is_not_empty : is_present x ≡ true
  pub value : Text
  pub splits : split equals x ≡ vendor_of x ∷ value ∷ []
  pub is_other : is_ours trusted_key (vendor_of x) ≡ false

abbrev pub AreKept : Text → List Text → Type 0
AreKept k [] = Unit
AreKept k (x ∷ xs) = IsKept k x × AreKept k xs

pub record IsProper (k : Text) (m : ListMembers) : Type 0 where
  pub kept : AreKept k m.final_list_members
  pub same_vendors : m.vendors ≡ map vendor_of m.final_list_members

AreKept-append :
    (k : Text) (xs : List Text) (x : Text) → AreKept k xs → IsKept k x → AreKept k (xs ++ x ∷ [])
AreKept-append k [] x h i = (i, tt)
AreKept-append k (y ∷ xs) x h i = (h.0, AreKept-append k xs x h.1 i)

map-vendor_of :
    (xs : List Text) (x : Text)
    → map vendor_of (xs ++ x ∷ []) ≡ map vendor_of xs ++ vendor_of x ∷ []
map-vendor_of [] x = refl
map-vendor_of (y ∷ xs) x = ap (λ l. vendor_of y ∷ l) (map-vendor_of xs x)

add_parts-IsProper :
    (k x : Text) (parts : List Text) (m m' : ListMembers)
    → split equals x ≡ parts
    → trim x ≡ x
    → lacks comma x ≡ true
    → is_present x ≡ true
    → IsProper k m
    → add_parts k x parts m ≡ some m'
    → IsProper k m'
unfolding add_parts
add_parts-IsProper k x (v ∷ w ∷ []) m m' s t l p h e = subst (IsProper k) (some_inj e) (
    either (IsProper k) (is_ours k v)
      (λ ours. record { kept = h.kept; same_vendors = h.same_vendors })
      (λ other. record {
        kept = AreKept-append k m.final_list_members x h.kept (record {
          is_trimmed = t;
          has_no_comma = l;
          is_not_empty = p;
          value = w;
          splits = s ∙ ap (λ ps. vendor_in ps ∷ w ∷ []) (sym s);
          is_other = ap (λ ps. is_ours k (vendor_in ps)) s ∙ other;
        });
        same_vendors =
            ap (λ vs. vs ++ v ∷ []) h.same_vendors
            ∙ ap (λ ps. map vendor_of m.final_list_members ++ vendor_in ps ∷ []) (sym s)
            ∙ sym (map-vendor_of m.final_list_members x);
      }))
add_parts-IsProper k x [] m m' s t l p h e = absurd (none-some e)
add_parts-IsProper k x (v ∷ []) m m' s t l p h e = absurd (none-some e)
add_parts-IsProper k x (v ∷ w ∷ y ∷ ps) m m' s t l p h e = absurd (none-some e)

add_member-IsProper :
    (k x : Text) (m m' : ListMembers)
    → trim x ≡ x
    → lacks comma x ≡ true
    → IsProper k m
    → add_member k x m ≡ some m'
    → IsProper k m'
unfolding add_member
add_member-IsProper k [] m m' t l h e = subst (IsProper k) (some_inj e) h
add_member-IsProper k (c ∷ s) m m' t l h e =
    add_parts-IsProper k (c ∷ s) (split equals (c ∷ s)) m m' refl t l refl h e

-- What is kept of a header are members that would be kept again.
pub add_members-IsProper :
    (k : Text) (xs : List Text) (m m' : ListMembers)
    → AllLack comma xs
    → IsProper k m
    → add_members k xs m ≡ some m'
    → IsProper k m'
unfolding add_members
add_members-IsProper k [] m m' l h e = subst (IsProper k) (some_inj e) h
add_members-IsProper k (x ∷ xs) m m' l h e = elim (Option-cases (add_member k (trim x) m)) [
  | inl fails ↦
      absurd
        (none-some (ap (λ o. elim o [ none ↦ none | some n ↦ add_members k xs n ]) (sym fails) ∙ e))
  | inr next ↦
      add_members-IsProper k xs next.0 m' l.1
        (add_member-IsProper k (trim x) m next.0 (trim-trim x) (all_of-trim _ x l.0) h next.1)
        (ap (λ o. elim o [ none ↦ none | some n ↦ add_members k xs n ]) (sym next.1) ∙ e)
]

-- The members, added to those that are there.
abbrev pub with_members : List Text → ListMembers → ListMembers
with_members xs m = record m {
  final_list_members = m.final_list_members ++ xs;
  vendors = m.vendors ++ map vendor_of xs;
}

add_member-kept :
    (k x : Text) (m : ListMembers) → IsKept k x → add_member k x m ≡ some (with_members (x ∷ []) m)
unfolding add_member add_parts
add_member-kept k [] m h = absurd (false-true h.is_not_empty)
add_member-kept k (c ∷ s) m h =
    ap (λ ps. add_parts k (c ∷ s) ps m) h.splits
    ∙ ap
        (λ b. some (
          if b
          then (record m { nr_value = first_of m.nr_value h.value })
          else with_members ((c ∷ s) ∷ []) m))
        h.is_other

with_members-cons :
    (x : Text) (xs : List Text) (m : ListMembers)
    → with_members xs (with_members (x ∷ []) m) ≡ with_members (x ∷ xs) m
with_members-cons x xs m =
    let members = append_assoc m.final_list_members (x ∷ []) xs in
    let vendors = append_assoc m.vendors (vendor_of x ∷ []) (map vendor_of xs) in
    rw (members, vendors) refl

with_members-nil : (m : ListMembers) → m ≡ with_members [] m
with_members-nil m = rw (append-nil m.final_list_members, append-nil m.vendors) refl

-- Members that were kept are kept again.
pub add_members-kept :
    (k : Text) (xs : List Text) (m : ListMembers)
    → AreKept k xs
    → add_members k xs m ≡ some (with_members xs m)
unfolding add_members
add_members-kept k [] m h = ap some (with_members-nil m)
add_members-kept k (x ∷ xs) m h =
    ap (λ t. elim (add_member k t m) [ none ↦ none | some n ↦ add_members k xs n ]) h.0.is_trimmed
    ∙ ap (λ o. elim o [ none ↦ none | some n ↦ add_members k xs n ]) (add_member-kept k x m h.0)
    ∙ add_members-kept k xs (with_members (x ∷ []) m) h.1
    ∙ ap some (with_members-cons x xs m)
