-- ===== src/Items/AddressFields.antt =====
-- The fields of an address that hold a text (struct zdtm_address_item of src/zdtm_common.h), and the
-- abbreviations by which the parameter format names them (src/zdtm_proto.c).
use lib_zdtm_sync.Prelude.{ℕ, List, [], ◌∷◌, ◌++◌}
use lib_zdtm_sync.Items.Copy.{four}

pub data AddressField : Type 0 where
  category : AddressField
  full_name full_name_pronun title last_name first_name middle_name suffix : AddressField
  alternative_name last_name_pronun first_name_pronun company company_pronun department :
      AddressField
  job_title work_phone work_fax work_mobile work_state work_city work_street work_zip : AddressField
  work_country work_web_page office profession assistant manager pager cellular : AddressField
  home_phone home_fax home_state home_city home_street home_zip home_country : AddressField
  home_web_page default_email emails spouse gender birthday anniversary nickname children :
      AddressField
  memo group : AddressField

-- The place of a field in the struct, which tells the fields apart.
unfoldable pub place : AddressField → ℕ
place category = 0
place full_name = 1
place full_name_pronun = 2
place title = 3
place last_name = 4
place first_name = 5
place middle_name = 6
place suffix = 7
place alternative_name = 8
place last_name_pronun = 9
place first_name_pronun = 10
place company = 11
place company_pronun = 12
place department = 13
place job_title = 14
place work_phone = 15
place work_fax = 16
place work_mobile = 17
place work_state = 18
place work_city = 19
place work_street = 20
place work_zip = 21
place work_country = 22
place work_web_page = 23
place office = 24
place profession = 25
place assistant = 26
place manager = 27
place pager = 28
place cellular = 29
place home_phone = 30
place home_fax = 31
place home_state = 32
place home_city = 33
place home_street = 34
place home_zip = 35
place home_country = 36
place home_web_page = 37
place default_email = 38
place emails = 39
place spouse = 40
place gender = 41
place birthday = 42
place anniversary = 43
place nickname = 44
place children = 45
place memo = 46
place group = 47

-- An entry: the abbreviation, the field, and n where a failure of malloc returns -(n + 1).
pub record Entry : Type 0 where
  pub abrev : List ℕ
  pub field : AddressField
  pub code : ℕ

abbrev pub entry : List ℕ → AddressField → ℕ → Entry
entry a f n = record { abrev = a; field = f; code = n }

-- In the order in which the source compares them: names.
abbrev pub name_entries : List Entry
name_entries =
    entry (four b'F' b'U' b'L' b'L') full_name 2
    ∷ entry (four b'N' b'A' b'P' b'R') full_name_pronun 3
    ∷ entry (four b'T' b'I' b'T' b'L') title 4
    ∷ entry (four b'L' b'N' b'M' b'E') last_name 5
    ∷ entry (four b'F' b'N' b'M' b'E') first_name 6
    ∷ entry (four b'M' b'N' b'M' b'E') middle_name 7
    ∷ entry (four b'S' b'U' b'F' b'X') suffix 8
    ∷ entry (four b'F' b'L' b'A' b'S') alternative_name 9
    ∷ entry (four b'L' b'N' b'P' b'R') last_name_pronun 10
    ∷ entry (four b'F' b'N' b'P' b'R') first_name_pronun 11
    ∷ []

-- In the order in which the source compares them: the company.
abbrev pub company_entries : List Entry
company_entries =
    entry (four b'C' b'P' b'N' b'Y') company 12
    ∷ entry (four b'C' b'P' b'P' b'R') company_pronun 13
    ∷ entry (four b'S' b'C' b'T' b'N') department 14
    ∷ entry (four b'P' b'S' b'T' b'N') job_title 15
    ∷ entry (four b'T' b'E' b'L' b'2') work_phone 16
    ∷ entry (four b'F' b'A' b'X' b'2') work_fax 17
    ∷ entry (four b'C' b'P' b'S' b'2') work_mobile 18
    ∷ entry (four b'B' b'S' b'T' b'A') work_state 19
    ∷ entry (four b'B' b'C' b'T' b'Y') work_city 20
    ∷ entry (four b'B' b'S' b'T' b'R') work_street 21
    ∷ entry (four b'B' b'Z' b'I' b'P') work_zip 22
    ∷ entry (four b'B' b'C' b'T' b'R') work_country 23
    ∷ entry (four b'B' b'W' b'E' b'B') work_web_page 24
    ∷ entry (four b'O' b'F' b'C' b'E') office 25
    ∷ entry (four b'P' b'R' b'F' b'S') profession 26
    ∷ entry (four b'A' b'S' b'S' b'T') assistant 27
    ∷ entry (four b'M' b'N' b'G' b'R') manager 28
    ∷ entry (four b'B' b'P' b'G' b'R') pager 29
    ∷ []

-- In the order in which the source compares them: home.
abbrev pub home_entries : List Entry
home_entries =
    entry (four b'C' b'P' b'S' b'1') cellular 30
    ∷ entry (four b'T' b'E' b'L' b'1') home_phone 31
    ∷ entry (four b'F' b'A' b'X' b'1') home_fax 32
    ∷ entry (four b'H' b'S' b'T' b'A') home_state 33
    ∷ entry (four b'H' b'C' b'T' b'Y') home_city 34
    ∷ entry (four b'H' b'S' b'T' b'R') home_street 35
    ∷ entry (four b'H' b'Z' b'I' b'P') home_zip 36
    ∷ entry (four b'H' b'C' b'T' b'R') home_country 37
    ∷ entry (four b'H' b'W' b'E' b'B') home_web_page 38
    ∷ entry (four b'D' b'M' b'A' b'L') default_email 39
    ∷ []

-- In the order in which the source compares them: the rest.
abbrev pub other_entries : List Entry
other_entries =
    entry (four b'M' b'A' b'L' b'1') emails 40
    ∷ entry (four b'S' b'P' b'U' b'S') spouse 41
    ∷ entry (four b'G' b'N' b'D' b'R') gender 42
    ∷ entry (four b'B' b'R' b'T' b'H') birthday 43
    ∷ entry (four b'A' b'N' b'I' b'V') anniversary 44
    ∷ entry (four b'N' b'C' b'N' b'M') nickname 45
    ∷ entry (four b'C' b'L' b'D' b'R') children 46
    ∷ entry (four b'M' b'E' b'M' b'1') memo 47
    ∷ entry (four b'G' b'R' b'P' b'S') group 48
    ∷ []

abbrev pub text_entries : List Entry
text_entries = name_entries ++ (company_entries ++ (home_entries ++ other_entries))
