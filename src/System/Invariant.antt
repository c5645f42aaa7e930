-- ===== src/System/Invariant.antt =====
-- The invariant of the tables.
use mathlib.Core.Option
use sayari.Prelude.{
  ℕ, ◌≡◌, refl, ◌⊎◌, Bool, true, false, Option, none, some, List, [], ◌∷◌, inl, inr, Bool-cases,
  Option-cases, subst, sym, ◌∙◌, Text, text_eq, text_eq_iff, text_eq→eq, count_where, if◌then◌else◌,
  arith,
}
use sayari.Domain.{Document, Token}
use sayari.Domain.Labels.{DocStatus}
use sayari.Store.{Db}
use sayari.Store.Documents.{belongs_to}
use sayari.System.Counts.{
  classified_of, OwnedBy, Fenced, Between, count_no_document, others_of, count-others_self,
  count-others_ne, Between-others, classified-le,
}

-- The manifest of a document agrees with the token table.
pub record DocInv (ts : List Token) (id : Text) (doc : Document) : Type 0 where
  pub same_id : doc.id ≡ id
  pub total : doc.total_tokens ≡ count_where (belongs_to id) ts
  pub counted : doc.classified_count ≡ count_where (classified_of id) ts
  pub complete : doc.status ≡ DocStatus.completed → doc.classified_count ≡ doc.total_tokens

pub record Inv (docs : Text → Option Document) (ts : List Token) (next : ℕ) : Type 0 where
  pub documents : (id : Text) (doc : Document) → docs id ≡ some doc → DocInv ts id doc
  pub fenced : Fenced docs ts
  pub ids : Between 0 next ts

abbrev pub IsConsistent : Db → Type 0
IsConsistent d = Inv d.documents d.tokens d.next_token

-- The document table after `UPDATE documents … WHERE id = …`.
abbrev pub updated :
    Text → (Document → Document) → (Text → Option Document) → Text → Option Document
updated id f docs j = if text_eq j id then Option.map f (docs j) else docs j

-- The document table after `INSERT INTO documents`.
abbrev pub inserted : Text → Document → (Text → Option Document) → Text → Option Document
inserted id doc docs j = if text_eq j id then some doc else docs j

-- A row of the updated table is the changed row, or an old one of another document.
pub updated-cases :
    (id : Text) (f : Document → Document) (docs : Text → Option Document) (j : Text)
    (doc : Document)
    → updated id f docs j ≡ some doc
    → ((j ≡ id) × ((old : Document) × (docs id ≡ some old) × (doc ≡ f old)))
      ⊎ ((text_eq j id ≡ false) × (docs j ≡ some doc))
updated-cases id f docs j doc e = elim (Bool-cases (text_eq j id)) [
  | inl same ↦ elim (Option-cases (docs j)) [
    | inl missing ↦ absurd (ground (arith, e))
    | inr (old, found) ↦ inl (
      text_eq→eq j id same,
      (old, subst (λ x. docs x ≡ some old) (text_eq→eq j id same) found, ground (arith, e, found)),
    )
  ]
  | inr other ↦ inr (other, ground (arith, e))
]

OwnedBy-updated :
    (id : Text) (f : Document → Document) (docs : Text → Option Document) (t : Token)
    → ((doc : Document) → (f doc).run_version ≡ doc.run_version)
    → (b : Bool) → text_eq t.document_id id ≡ b
    → OwnedBy docs t
    → OwnedBy (updated id f docs) t
OwnedBy-updated id f docs t same true e (doc, found, run) =
    (f doc, ground (arith, found), ground (arith, same doc))
OwnedBy-updated id f docs t same false e (doc, found, run) = (doc, ground (arith, found), run)

pub Fenced-updated :
    (id : Text) (f : Document → Document) (docs : Text → Option Document) (ts : List Token)
    → ((doc : Document) → (f doc).run_version ≡ doc.run_version)
    → Fenced docs ts
    → Fenced (updated id f docs) ts
Fenced-updated id f docs [] same h = tt
Fenced-updated id f docs (t ∷ ts) same h =
    (OwnedBy-updated id f docs t same _ refl h.0, Fenced-updated id f docs ts same h.1)

inserted-cases :
    (id : Text) (new : Document) (docs : Text → Option Document) (j : Text) (doc : Document)
    → inserted id new docs j ≡ some doc
    → ((j ≡ id) × (doc ≡ new)) ⊎ (docs j ≡ some doc)
inserted-cases id new docs j doc e = elim (Bool-cases (text_eq j id)) [
  | inl same ↦ inl (text_eq→eq j id same, ground (arith, e))
  | inr other ↦ inr (ground (arith, e))
]

Fenced-inserted :
    (id : Text) (new : Document) (docs : Text → Option Document) (ts : List Token)
    → docs id ≡ none
    → Fenced docs ts
    → Fenced (inserted id new docs) ts
Fenced-inserted id new docs [] missing h = tt
Fenced-inserted id new docs (t ∷ ts) missing ((doc, found, run), h) = (
  (doc, ground (arith, text_eq_iff t.document_id id), run),
  Fenced-inserted id new docs ts missing h,
)

Fenced-reset :
    (id : Text) (f : Document → Document) (docs : Text → Option Document) (ts : List Token)
    → Fenced docs ts
    → Fenced (updated id f docs) (others_of id ts)
Fenced-reset id f docs [] h = tt
Fenced-reset id f docs (t ∷ ts) h =
    reset_row (Bool-cases (text_eq t.document_id id)) (Fenced-reset id f docs ts h.1)
  where
    reset_row :
        (text_eq t.document_id id ≡ true) ⊎ (text_eq t.document_id id ≡ false)
        → Fenced (updated id f docs) (others_of id ts)
        → Fenced (updated id f docs) (others_of id (t ∷ ts))
    reset_row (inl e) rest = rw e rest
    reset_row (inr e) rest = rw e ((h.0.0, rw e h.0.1, h.0.2), rest)

belongs_apart :
    (id j : Text)
    → text_eq j id ≡ false
    → (t : Token) → belongs_to id t ≡ true
    → belongs_to j t ≡ false
belongs_apart id j other t h =
    ground (arith, text_eq_iff t.document_id id, text_eq_iff t.document_id j, text_eq_iff j id)

classified_apart :
    (id j : Text)
    → text_eq j id ≡ false
    → (t : Token) → belongs_to id t ≡ true
    → classified_of j t ≡ false
classified_apart id j other t h = rw (belongs_apart id j other t h)

module _ (docs : Text → Option Document) (ts : List Token) (next : ℕ) (v : Inv docs ts next)
    (id : Text) where
  -- An update that keeps the run, and keeps the manifest in agreement with the tokens.
  pub Inv-updated :
      (f : Document → Document)
      → ((doc : Document) → (f doc).run_version ≡ doc.run_version)
      → ((doc : Document) → docs id ≡ some doc → DocInv ts id doc → DocInv ts id (f doc))
      → Inv (updated id f docs) ts next
  Inv-updated f same keep = record {
    documents = λ j doc e. elim (updated-cases id f docs j doc e) [
      | inl (here, (old, found, changed)) ↦
          rw (here, changed) (keep old found (v.documents id old found))
      | inr (other, found) ↦ v.documents j doc found
    ];
    fenced = Fenced-updated id f docs ts same v.fenced;
    ids = v.ids;
  }

  -- A new document has no tokens yet.
  pub Inv-inserted :
      (doc : Document)
      → docs id ≡ none
      → doc.id ≡ id
      → doc.total_tokens ≡ 0
      → doc.classified_count ≡ 0
      → Inv (inserted id doc docs) ts next
  Inv-inserted doc missing same total counted = record {
    documents = λ j other e. elim (inserted-cases id doc docs j other e) [
      | inl (here, new) ↦
          rw (here, new)
            (record {
              same_id = same;
              total = omega (arith, total, count_no_document docs id ts missing v.fenced);
              counted = omega (
                arith,
                counted,
                count_no_document docs id ts missing v.fenced,
                classified-le id ts,
              );
              complete = λ _. omega (arith, total, counted);
            })
      | inr found ↦ v.documents j other found
    ];
    fenced = Fenced-inserted id doc docs ts missing v.fenced;
    ids = v.ids;
  }

  -- A reset deletes the document's tokens and starts a new run with empty counters.
  pub Inv-reset :
      (f : Document → Document)
      → ((doc : Document)
          → ((f doc).id ≡ doc.id) × ((f doc).total_tokens ≡ 0) × ((f doc).classified_count ≡ 0))
      → Inv (updated id f docs) (others_of id ts) next
  Inv-reset f zeroed = record {
    documents = λ j doc e. elim (updated-cases id f docs j doc e) [
      | inl (here, (old, found, changed)) ↦
          rw (here, changed)
            (record {
              same_id = (zeroed old).0 ∙ (v.documents id old found).same_id;
              total = omega (arith, zeroed old, count-others_self id ts);
              counted =
                  omega (
                    arith,
                    zeroed old,
                    count-others_self id ts,
                    classified-le id (others_of id ts),
                  );
              complete = λ _. omega (arith, zeroed old);
            })
      | inr (other, found) ↦ DocInv-others j doc other (v.documents j doc found)
    ];
    fenced = Fenced-reset id f docs ts v.fenced;
    ids = Between-others id 0 next ts v.ids;
  }
    where
      DocInv-others :
          (j : Text) (doc : Document)
          → text_eq j id ≡ false
          → DocInv ts j doc
          → DocInv (others_of id ts) j doc
      DocInv-others j doc other h = record {
        same_id = h.same_id;
        total = h.total ∙ sym (count-others_ne id (belongs_to j) ts (belongs_apart id j other));
        counted =
            h.counted ∙ sym (count-others_ne id (classified_of j) ts (classified_apart id j other));
        complete = h.complete;
      }
