-- ===== src/Tests/Serialization.antt =====
-- The dictionary of the commons library as a list of keys, and a PCB with one context.
use socketapp.Common.{
  ℕ, ◌≡◌, ◌≢◌, ◌⊎◌, refl, sym, ap, ◌∙◌, inl, inr, Bool, true, false, Option, none, some, List, [],
  ◌∷◌, subst, arith, neg, if◌then◌else◌, replicate,
}
use mathlib.Core.List.{List-discrete}
use native.Mathlib.Decide.{ℕ_discrete}
use socketapp.Serialization.{
  StackContext, Pcb, Dictionary, pcb_serialize, pcb_deserialize, null_position,
}
use socketapp.Serialization.Values.{Position}
use socketapp.Serialization.Context.{FitsContext}
use socketapp.Serialization.Dict.{IsEntry, IsDictionary}
use socketapp.Serialization.RoundTrip.{FitsPcb, SamePcb, pcb_deserialize-pcb_serialize}

abbrev is_yes {ℓ} : {P : Type ℓ} → Dec P → Bool
is_yes (yes _) = true
is_yes (no _) = false

abbrev pub Vars : Type 0
Vars = List (List ℕ × Position)

abbrev pub same_key : List ℕ → List ℕ → Bool
same_key a b = is_yes (List-discrete ℕ_discrete a b)

pub same_key-cases :
    (a b : List ℕ) → ((same_key a b ≡ true) × (a ≡ b)) ⊎ ((same_key a b ≡ false) × (a ≢ b))
same_key-cases a b = go (List-discrete ℕ_discrete a b)
  where
    go : {P : Type 0} (d : Dec P) → ((is_yes d ≡ true) × P) ⊎ ((is_yes d ≡ false) × ¬ P)
    go (yes p) = inl (refl, p)
    go (no np) = inr (refl, np)

abbrev pub drop_key : List ℕ → Vars → Vars
drop_key key [] = []
drop_key key ((k, v) ∷ vars) =
    let rest = drop_key key vars in if same_key k key then rest else (k, v) ∷ rest

abbrev pub lookup_key : Vars → List ℕ → Option Position
lookup_key [] key = none
lookup_key ((k, v) ∷ vars) key =
    let rest = lookup_key vars key in if same_key k key then some v else rest

-- A key that was put again hides what it had.
abbrev pub live_entries : Vars → Vars
live_entries [] = []
live_entries ((k, v) ∷ vars) = (k, v) ∷ drop_key k (live_entries vars)

abbrev pub vars_dictionary : Dictionary Vars
vars_dictionary = record {
  create = [];
  put = λ vars key value. (key, value) ∷ vars;
  get = lookup_key;
  entries = live_entries;
}

drop_key-IsEntry :
    (k key : List ℕ) (value : Position) (vars : Vars)
    → IsEntry key value (drop_key k vars)
    → (k ≢ key) × IsEntry key value vars
drop_key-IsEntry k key value [] h = elim h [ ]
drop_key-IsEntry k key value ((k', v) ∷ vars) h = elim (same_key-cases k' k) [
  | inl (same, e) ↦
      let (apart, there) = drop_key-IsEntry k key value vars (rw (same, drop_key) at h) in
      (apart, inr there)
  | inr (other, ne) ↦
      elim (subst
        (λ b. IsEntry key value (if b then drop_key k vars else (k', v) ∷ drop_key k vars)) other
        h) [
          | inl (e, w) ↦ (λ e'. ne (e ∙ sym e'), inl (e, w))
          | inr there ↦
              let (apart, there') = drop_key-IsEntry k key value vars there in (apart, inr there')
        ]
]

IsEntry-drop_key :
    (k key : List ℕ) (value : Position) (vars : Vars)
    → k ≢ key
    → IsEntry key value vars
    → IsEntry key value (drop_key k vars)
IsEntry-drop_key k key value [] apart h = elim h [ ]
IsEntry-drop_key k key value ((k', v) ∷ vars) apart h = elim (same_key-cases k' k) [
  | inl (same, e) ↦ elim h [
    | inl (e', w) ↦ absurd (apart (sym e ∙ e'))
    | inr there ↦ rw same (IsEntry-drop_key k key value vars apart there)
  ]
  | inr (other, ne) ↦ rw other (elim h [
    | inl found ↦ inl found
    | inr there ↦ inr (IsEntry-drop_key k key value vars apart there)
  ])
]

pub lookup_key-entry :
    (vars : Vars) (key : List ℕ) (value : Position)
    → IsEntry key value (live_entries vars)
    → lookup_key vars key ≡ some value
lookup_key-entry [] key value h = elim h [ ]
lookup_key-entry ((k, v) ∷ vars) key value h = elim (same_key-cases k key) [
  | inl (same, e) ↦ elim h [
    | inl (e', w) ↦ rw same (ap some w)
    | inr there ↦ absurd ((drop_key-IsEntry k key value (live_entries vars) there).0 e)
  ]
  | inr (other, ne) ↦ elim h [
    | inl (e', w) ↦ absurd (ne e')
    | inr there ↦
        rw other (
          lookup_key-entry vars key value
            (drop_key-IsEntry k key value (live_entries vars) there).1)
  ]
]

lookup_key-no_entry :
    (vars : Vars) (key : List ℕ)
    → ((value : Position) → ¬ IsEntry key value (live_entries vars))
    → lookup_key vars key ≡ none
lookup_key-no_entry [] key h = refl
lookup_key-no_entry ((k, v) ∷ vars) key h = elim (same_key-cases k key) [
  | inl (same, e) ↦ absurd (h v (inl (e, refl)))
  | inr (other, ne) ↦ rw other (
      lookup_key-no_entry vars key
        (λ value there. h value (inr (IsEntry-drop_key k key value (live_entries vars) ne there))))
]

pub vars_dictionary-IsDictionary : IsDictionary vars_dictionary
vars_dictionary-IsDictionary = record {
  get-create = λ key. refl;
  get-put_self = λ vars key value. elim (same_key-cases key key) [
    | inl (same, _) ↦ rw same
    | inr (_, ne) ↦ absurd (ne refl)
  ];
  get-put_other = λ vars key value other apart. elim (same_key-cases key other) [
    | inl (_, e) ↦ absurd (apart e)
    | inr (differ, _) ↦ rw differ
  ];
  get-entries = lookup_key-entry;
  get-no_entry = lookup_key-no_entry;
}

abbrev at_page_two : Position
at_page_two = record { page = 2; off = 4; size = 4 }

abbrev sample_context : StackContext Vars
sample_context = record {
  vars = (97 ∷ [], at_page_two) ∷ [];
  arg_count = 1;
  args = at_page_two ∷ replicate 9 (record { page = 0; off = 0; size = 0 });
  ret_pos = neg 1;
  ret_var = none;
}

abbrev sample_pcb : Pcb Vars
sample_pcb = record {
  pid = 7;
  pc = 3;
  cant_pags_codigo = 2;
  indice_de_codigo_cant = 2;
  indice_de_codigo = record { start = 0; offset = 10 } ∷ record { start = 10; offset = 5 } ∷ [];
  indice_de_etiquetas_cant = 3;
  indice_de_etiquetas = 102 ∷ 0 ∷ 1 ∷ [];
  indice_de_stack = sample_context ∷ [];
  stack_position = 8;
  max_stack_position = 64;
  exit_code = 0;
}

sample-FitsContext : FitsContext vars_dictionary sample_context
unfolding null_position
sample-FitsContext = record {
  few_vars = omega arith;
  vars = (((omega arith, tt), (omega arith, omega arith, omega arith)), tt);
  ten = omega arith;
  room = omega arith;
  args = ((omega arith, omega arith, omega arith), tt);
  ret_pos = omega arith;
  ret_var = (omega arith, omega arith, omega arith);
  not_null = refl;
}

sample-FitsPcb : FitsPcb vars_dictionary sample_pcb
sample-FitsPcb = record {
  pid = omega arith;
  pc = omega arith;
  cant_pags_codigo = omega arith;
  codigo_count = omega arith;
  codigo_room = omega arith;
  codigo = ((omega arith, omega arith), ((omega arith, omega arith), tt));
  etiquetas_count = omega arith;
  etiquetas_room = omega arith;
  stack_count = omega arith;
  stack = (sample-FitsContext, tt);
  stack_position = omega arith;
  max_stack_position = omega arith;
  exit_code = omega arith;
}

pcb_example :
    (bytes : List ℕ) × (pcb' : Pcb Vars) × (pcb_serialize vars_dictionary sample_pcb ≡ some bytes)
    × (pcb_deserialize vars_dictionary bytes ≡ some pcb')
    × SamePcb vars_dictionary vars_dictionary-IsDictionary sample_pcb pcb'
pcb_example =
    pcb_deserialize-pcb_serialize vars_dictionary vars_dictionary-IsDictionary sample_pcb
      sample-FitsPcb
