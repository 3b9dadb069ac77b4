-- ===== src/Items/Length.antt =====
-- The room that a calendar item and an address take in a message (zdtm_calendar_length and
-- zdtm_address_length of src/zdtm_common.c).
use lib_zdtm_sync.Prelude.{ℕ, ◌+◌, List, [], ◌∷◌, map, ◌<◌, ◌≡◌, arith}
use lib_zdtm_sync.Prelude.Int.{ℤ, pos, to_int}
use lib_zdtm_sync.Requests.Rdw.{to_int-small}
use lib_zdtm_sync.Items.Calendar.{CalendarItem}
use lib_zdtm_sync.Items.AddressFields.{
  AddressField, category, full_name, full_name_pronun, title, last_name, first_name, middle_name,
  suffix, alternative_name, last_name_pronun, first_name_pronun, company, department, job_title,
  work_phone, work_fax, work_mobile, work_state, work_city, work_street, work_zip, work_country,
  work_web_page, office, profession, assistant, manager, pager, cellular, home_phone, home_fax,
  home_state, home_city, home_street, home_zip, home_country, home_web_page, default_email, emails,
  spouse, gender, birthday, anniversary, nickname, children, memo, group, company_pronun,
  text_entries,
}
use lib_zdtm_sync.Items.Address.{AddressItem}

-- Each field with the four bytes of its length. The source makes an int of the sum. The time of the alarm has no place in it.
unfoldable pub calendar_length : CalendarItem → ℤ
unfolding to_int
calendar_length calendar = to_int (
    (4 + calendar.category_len)
    + (4 + calendar.description_len)
    + (4 + calendar.location_len)
    + (4 + calendar.notes_len)
    + (4 + 5)
    + (4 + 5)
    + (4 + 1)
    + (4 + 1)
    + (4 + 1)
    + (4 + 1)
    + (4 + 2)
    + (4 + 2)
    + (4 + 1)
    + (4 + 1)
    + (4 + 5)
    + (4 + 5)
    + (4 + 5)
    + (4 + 1))

-- The fields in the order in which the source adds them.
abbrev pub counted_fields : List AddressField
counted_fields =
    category ∷ full_name ∷ full_name_pronun ∷ title ∷ last_name ∷ first_name ∷ middle_name ∷ suffix
    ∷ alternative_name ∷ last_name_pronun ∷ first_name_pronun ∷ company ∷ department ∷ job_title
    ∷ work_phone ∷ work_fax ∷ work_mobile ∷ work_state ∷ work_city ∷ work_street ∷ work_zip
    ∷ work_country ∷ work_web_page ∷ office ∷ profession ∷ assistant ∷ manager ∷ pager ∷ cellular
    ∷ home_phone ∷ home_fax ∷ home_state ∷ home_city ∷ home_street ∷ home_zip ∷ home_country
    ∷ home_web_page ∷ default_email ∷ emails ∷ spouse ∷ gender ∷ birthday ∷ anniversary ∷ nickname
    ∷ children ∷ memo ∷ group ∷ []

abbrev pub texts_length : List AddressField → AddressItem → ℕ
texts_length [] address = 0
texts_length (f ∷ fs) address = (4 + (address.texts f).len) + texts_length fs address

unfoldable pub address_length : AddressItem → ℤ
unfolding to_int
address_length address = to_int (texts_length counted_fields address)

below : (a b k : ℕ) → b ≡ a + k → b < 2147483648 → a < 2147483648
below a b k e h = omega arith

-- Of the texts that the parse of an address stores, zdtm_address_length counts every one but the
-- pronunciation of the company. The texts are short enough for an int to hold the total.
pub address_length-text_entries :
    (address : AddressItem)
    → texts_length (category ∷ map (λ e. e.field) text_entries) address < 2147483648
    → (n : ℕ) × (address_length address ≡ pos n)
      × (texts_length (category ∷ map (λ e. e.field) text_entries) address
          ≡ n + (4 + (address.texts company_pronun).len))
unfolding address_length
address_length-text_entries address fits =
    let counted = texts_length counted_fields address in
    let all = texts_length (category ∷ map (λ e. e.field) text_entries) address in
    let total : all ≡ counted + (4 + (address.texts company_pronun).len) = omega arith in
    (counted, to_int-small counted (below counted all _ total fits), total)
