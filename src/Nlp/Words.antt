-- ===== src/Nlp/Words.antt =====
-- internal/nlp/mock.go: the word lists that keep titles and headlines out of the names.
use sayari.Prelude.{Bool, true, false, ◌&&◌, ◌||◌, List, [], ◌∷◌, Text, codes, text_eq}
use sayari.Strings.{fields}

is_in : Text → List Text → Bool
is_in w [] = false
is_in w (v ∷ vs) = text_eq w v || is_in w vs

abbrev role_words : List Text
role_words =
    codes "Chief"
    ∷ codes "Executive"
    ∷ codes "Officer"
    ∷ codes "Financial"
    ∷ codes "Technology"
    ∷ codes "Operating"
    ∷ codes "President"
    ∷ codes "Vice"
    ∷ codes "Senior"
    ∷ codes "Managing"
    ∷ codes "Director"
    ∷ codes "Chairman"
    ∷ codes "Chairwoman"
    ∷ codes "Board"
    ∷ codes "Member"
    ∷ codes "Head"
    ∷ []

all_in : List Text → List Text → Bool
unfolding is_in
all_in [] vs = true
all_in (w ∷ ws) vs = is_in w vs && all_in ws vs

some_words : List Text → Bool
unfolding all_in
some_words [] = false
some_words (w ∷ ws) = all_in (w ∷ ws) role_words

-- `isAllRoleWords`.
unfoldable pub is_all_role_words : Text → Bool
unfolding some_words
is_all_role_words s = some_words (fields s)

abbrev non_name_words : List Text
non_name_words =
    codes "The"
    ∷ codes "This"
    ∷ codes "That"
    ∷ codes "On"
    ∷ codes "In"
    ∷ codes "At"
    ∷ codes "Of"
    ∷ codes "And"
    ∷ codes "For"
    ∷ codes "With"
    ∷ codes "During"
    ∷ codes "After"
    ∷ codes "Before"
    ∷ codes "New"
    ∷ codes "Leadership"
    ∷ codes "Announces"
    ∷ codes "Announced"
    ∷ codes "Announce"
    ∷ codes "Reports"
    ∷ codes "Report"
    ∷ codes "Names"
    ∷ codes "Appoints"
    ∷ codes "Appointed"
    ∷ codes "Joins"
    ∷ codes "Welcomes"
    ∷ codes "Summit"
    ∷ codes "Annual"
    ∷ codes "Regional"
    ∷ codes "He"
    ∷ codes "She"
    ∷ codes "They"
    ∷ codes "We"
    ∷ codes "It"
    ∷ codes "More"
    ∷ codes "Visit"
    ∷ []

any_in : List Text → List Text → Bool
unfolding is_in
any_in [] vs = false
any_in (w ∷ ws) vs = is_in w vs || any_in ws vs

-- `containsNonNameWord`.
unfoldable pub contains_non_name_word : Text → Bool
unfolding any_in
contains_non_name_word s = any_in (fields s) non_name_words
