-- ===== src/Items/Address/Columns/Stored.antt =====
-- What the parse of an address makes of one column.
use lib_zdtm_sync.Prelude.{ℕ, ◌≡◌, refl, ◌∙◌, ap, some, List, length, arith}
use lib_zdtm_sync.Prelude.Int.{pos}
use lib_zdtm_sync.Bytes.{little}
use lib_zdtm_sync.Run.{ok, ◌>>=◌, overlay_full}
use lib_zdtm_sync.Env.{State}
use lib_zdtm_sync.Platform.{Platform, NeverFull}
use lib_zdtm_sync.Platform.Blocks.{after_malloc, after_mallocs, malloc-some}
use lib_zdtm_sync.Contents.{DataParam}
use lib_zdtm_sync.Requests.Length.{read_all}
use lib_zdtm_sync.Replies.Adi.Texts
use lib_zdtm_sync.Replies.Adi.Texts.{Text}
use lib_zdtm_sync.Replies.Adr.Params
use lib_zdtm_sync.Items.Columns.{Stores}
use lib_zdtm_sync.Items.Columns.Numbers.{copy_u32-little}
use lib_zdtm_sync.Items.AddressFields.{
  AddressField, category, full_name, full_name_pronun, title, last_name, first_name, middle_name,
  suffix, alternative_name, last_name_pronun, first_name_pronun, company, company_pronun,
  department, job_title, work_phone, work_fax, work_mobile, work_state, work_city, work_street,
  work_zip, work_country, work_web_page, office, profession, assistant, manager, pager, cellular,
  home_phone, home_fax, home_state, home_city, home_street, home_zip, home_country, home_web_page,
  default_email, emails, spouse, gender, birthday, anniversary, nickname, children, memo, group,
}
use lib_zdtm_sync.Items.Address.{AddressItem, set_text, store_text, set_address_utf8, set_address}
use lib_zdtm_sync.Items.Address.Columns.{
  AddressColumn, creation_date, modification_date, attribute, sync_id, text, unread, IsField,
  name_of, text_type, bytes_of, store, rooms, text_of, meaning, HasDates,
}

store-HasDates :
    (f : AddressColumn) (item : AddressItem) → IsField f → HasDates item → HasDates (store f item)
unfolding set_text
store-HasDates (creation_date date) item h (a, b) = (h, b)
store-HasDates (modification_date date) item h (a, b) = (a, h)
store-HasDates (attribute value) item h i = i
store-HasDates (sync_id value) item h i = i
store-HasDates (text field bytes) item h i = i
store-HasDates (unread type_id abrev bytes) item h i = i

module _ {W : Type 0} (p : Platform W) where
  -- The chain of comparisons finds the field of each text.
  set_address-text :
      (f : AddressField) (desc : List ℕ) (param : DataParam) (item : AddressItem)
      → (n : ℕ) × (set_address p
            (Texts.param (record { abrev = name_of f; type_id = text_type f; desc = desc }))
            param
            item
          ≡ store_text p f n param item)
  unfolding set_address set_address_utf8
  set_address-text category desc param item = (1, refl)
  set_address-text full_name desc param item = (2, refl)
  set_address-text full_name_pronun desc param item = (3, refl)
  set_address-text title desc param item = (4, refl)
  set_address-text last_name desc param item = (5, refl)
  set_address-text first_name desc param item = (6, refl)
  set_address-text middle_name desc param item = (7, refl)
  set_address-text suffix desc param item = (8, refl)
  set_address-text alternative_name desc param item = (9, refl)
  set_address-text last_name_pronun desc param item = (10, refl)
  set_address-text first_name_pronun desc param item = (11, refl)
  set_address-text company desc param item = (12, refl)
  set_address-text company_pronun desc param item = (13, refl)
  set_address-text department desc param item = (14, refl)
  set_address-text job_title desc param item = (15, refl)
  set_address-text work_phone desc param item = (16, refl)
  set_address-text work_fax desc param item = (17, refl)
  set_address-text work_mobile desc param item = (18, refl)
  set_address-text work_state desc param item = (19, refl)
  set_address-text work_city desc param item = (20, refl)
  set_address-text work_street desc param item = (21, refl)
  set_address-text work_zip desc param item = (22, refl)
  set_address-text work_country desc param item = (23, refl)
  set_address-text work_web_page desc param item = (24, refl)
  set_address-text office desc param item = (25, refl)
  set_address-text profession desc param item = (26, refl)
  set_address-text assistant desc param item = (27, refl)
  set_address-text manager desc param item = (28, refl)
  set_address-text pager desc param item = (29, refl)
  set_address-text cellular desc param item = (30, refl)
  set_address-text home_phone desc param item = (31, refl)
  set_address-text home_fax desc param item = (32, refl)
  set_address-text home_state desc param item = (33, refl)
  set_address-text home_city desc param item = (34, refl)
  set_address-text home_street desc param item = (35, refl)
  set_address-text home_zip desc param item = (36, refl)
  set_address-text home_country desc param item = (37, refl)
  set_address-text home_web_page desc param item = (38, refl)
  set_address-text default_email desc param item = (39, refl)
  set_address-text emails desc param item = (40, refl)
  set_address-text spouse desc param item = (41, refl)
  set_address-text gender desc param item = (42, refl)
  set_address-text birthday desc param item = (43, refl)
  set_address-text anniversary desc param item = (44, refl)
  set_address-text nickname desc param item = (45, refl)
  set_address-text children desc param item = (46, refl)
  set_address-text memo desc param item = (47, refl)
  set_address-text group desc param item = (48, refl)

  store_text-stores :
      (f : AddressField) (n : ℕ) (bytes : List ℕ) (item : AddressItem) (s : State W)
      → NeverFull p
      → store_text p f n (Params.param bytes) item s
        ≡ ok
            (pos 0, set_text f (record { len = length bytes; bytes = some bytes }) item)
            (after_malloc p (length bytes) s)
  store_text-stores f n bytes item s full =
      let (block, alloc) = malloc-some p full (length bytes) s.sys in
      rw (alloc, read_all (length bytes) bytes refl, ◌>>=◌) refl

  -- Each column is stored in its field, a text in a block of its own.
  set_address-stores :
      (f : AddressColumn) (desc : List ℕ) (item : AddressItem) (s : State W)
      → NeverFull p
      → p.order ≡ little
      → IsField f
      → HasDates item
      → set_address p
          (Texts.param (text_of (record { field = f; desc = desc })))
          (Params.param (bytes_of f))
          item
          s
        ≡ ok (pos 0, store f item) (after_mallocs p (rooms f) s)
  unfolding set_address
  set_address-stores (creation_date date) desc item s full order h (a, b) =
      rw
        (
          read_all (length date) date refl,
          overlay_full date item.creation_date (omega arith),
          ◌>>=◌,
        )
        refl
  set_address-stores (modification_date date) desc item s full order h (a, b) =
      rw
        (
          read_all (length date) date refl,
          overlay_full date item.modification_date (omega arith),
          ◌>>=◌,
        )
        refl
  set_address-stores (attribute value) desc item s full order h i = refl
  set_address-stores (sync_id value) desc item s full order h i =
      rw (copy_u32-little p.order value item.sync_id s order h, ◌>>=◌) refl
  set_address-stores (text field bytes) desc item s full order h i =
      let (n, found) = set_address-text field desc (Params.param bytes) item in
      ap (λ run. run s) found ∙ store_text-stores field n bytes item s full
  set_address-stores (unread type_id abrev bytes) desc item s full order (a, b, c, d, e) i =
      rw (a, b, c, d, e) refl

  pub set_address-Stores :
      NeverFull p
      → p.order ≡ little
      → Stores meaning p (set_address p) (λ c. IsField c.field) HasDates
  set_address-Stores full order = record {
    runs = λ c item s h i. set_address-stores c.field c.desc item s full order h i;
    keeps = λ c item h i. store-HasDates c.field item h i;
  }
