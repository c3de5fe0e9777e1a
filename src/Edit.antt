-- ===== src/Edit.antt =====
-- Editing and deleting a campaign, src/app/api/campaigns/[id]/route.ts. `sanitize` and `html_to_text`
-- are those of src/lib/html.ts, `uuid` is what the database reads a uuid's text as, `list_exists` says
-- which lists there are, and `meanwhile` is what other requests write between the read and the write.
pub mod Rest
pub mod Laws
mod Tests
use ai_email_broadcast_hw.Base.{
  ℕ, Bool, true, false, not, ◌&&◌, ◌||◌, Option, none, some, List, [], ◌∷◌, ◌++◌, map, Text, String,
  ◌==◌, ltb, if◌then◌else◌, any, length, select, update_where, mem_id, is_some,
}
use ai_email_broadcast_hw.Address.Valid.{is_valid_email}
use ai_email_broadcast_hw.Api.{Response, ok, refused, bad_request, conflict, not_found}
use ai_email_broadcast_hw.Input.{
  Value, undefined, null, other, text, ◌>>=◌, str, present, optional_str, ListValue, absent,
  uuid_list,
}
use ai_email_broadcast_hw.Store.{Store, Campaign, CampaignList, find_campaign}
use ai_email_broadcast_hw.Store.Lookup.{first}
use ai_email_broadcast_hw.Store.Status.{CampaignStatus, campaign_is}
use ai_email_broadcast_hw.Send.{and_then}

-- The body of a PATCH request.
pub record Edit : Type 0 where
  pub name : Value
  pub subject : Value
  pub from_name : Value
  pub from_email : Value
  pub reply_to : Value
  pub content_html : Value
  pub text_body : Value
  pub text_body_is_custom : Option Bool
  pub list_ids : ListValue

-- The columns to set; none is a column that the statement does not name.
pub record Patch : Type 0 where
  pub name : Option Text
  pub subject : Option Text
  pub from_name : Option (Option Text)
  pub reply_to : Option (Option Text)
  pub from_email : Option (Option Text)
  pub content : Option Text
  pub text_body : Option (Option Text)
  pub text_body_is_custom : Option Bool

abbrev pub is_given : Value → Bool
is_given undefined = false
is_given null = true
is_given other = true
is_given (text t) = true

-- A field of the body is read if it is there.
abbrev pub given : {A : Type 0} → Value → (Value → Response A) → Response (Option A)
given v f = if is_given v then present (f v) else ok none

abbrev pub check_address : String → Option Text → Response (Option Text)
check_address key none = ok none
check_address key (some t) = if is_valid_email t then ok (some t) else bad_request key

unfoldable pub address : String → Value → Response (Option Text)
unfolding optional_str is_valid_email
address key v = optional_str 254 v >>= check_address key

-- The text that a new body brings along, unless the text is the user's own.
abbrev pub derived_text : (Text → Text) → Bool → Option Text → Option (Option Text)
derived_text html_to_text custom none = none
derived_text html_to_text custom (some clean) =
    if custom then none else some (some (html_to_text clean))

abbrev pub custom_or_true : Option Bool → Bool
custom_or_true none = true
custom_or_true (some b) = b

abbrev pub text_or : Option (Option Text) → Option (Option Text) → Option (Option Text)
text_or none derived = derived
text_or (some t) derived = some t

abbrev pub custom_if : Option (Option Text) → Option Bool → Option Bool
custom_if none custom = none
custom_if (some t) custom = some (custom_or_true custom)

abbrev pub or_keep {ℓ} : {A : Type ℓ} → Option A → A → A
or_keep none a = a
or_keep (some b) a = b

-- What the statement does to the row.
unfoldable pub apply_patch : ℕ → Patch → Campaign → Campaign
apply_patch now p c = record c {
  name = or_keep p.name c.name;
  subject = or_keep p.subject c.subject;
  from_name = or_keep p.from_name c.from_name;
  from_email = or_keep p.from_email c.from_email;
  reply_to = or_keep p.reply_to c.reply_to;
  content_html = or_keep p.content c.content_html;
  compiled_html = or_keep p.content c.compiled_html;
  text_body = or_keep p.text_body c.text_body;
  text_body_is_custom = or_keep p.text_body_is_custom c.text_body_is_custom;
  updated_at = now;
}

abbrev pub make_patch :
    (Text → Text)
    → Bool
    → Edit
    → Option Text
    → Option Text
    → Option (Option Text)
    → Option (Option Text)
    → Option (Option Text)
    → Option Text
    → Option (Option Text)
    → Patch
make_patch html_to_text custom e name subject from_name reply_to from_email content own_text =
    record {
      name = name;
      subject = subject;
      from_name = from_name;
      reply_to = reply_to;
      from_email = from_email;
      content = content;
      text_body = text_or own_text (derived_text html_to_text custom content);
      text_body_is_custom = custom_if own_text e.text_body_is_custom;
    }

module _ (sanitize html_to_text : Text → Text) where
  unfoldable pub clean_html : Value → Response Text
  clean_html undefined = bad_request "err.field.string"
  clean_html null = bad_request "err.field.string"
  clean_html other = bad_request "err.field.string"
  clean_html (text t) =
      if ltb 500000 (length t) then bad_request "err.campaign.contentTooLarge" else ok (sanitize t)

  unfoldable pub patch_of : Edit → Bool → Response Patch
  unfolding str optional_str address clean_html
  patch_of e custom = do
    name ← given e.name (str 200 true)
    subject ← given e.subject (str 300 false)
    from_name ← given e.from_name (optional_str 200)
    reply_to ← given e.reply_to (address "err.replyTo.invalid")
    from_email ← given e.from_email (address "err.senderEmail.invalid")
    content ← given e.content_html clean_html
    own_text ← given e.text_body (optional_str 200000)
    ok (
        make_patch html_to_text custom e name subject from_name reply_to from_email content
          own_text)

abbrev pub has_twice : List ℕ → Bool
has_twice [] = false
has_twice (i ∷ is) = mem_id i is || has_twice is

module _ (uuid : Text → ℕ) (list_exists : ℕ → Bool) where
  -- INSERT of rows with the primary key (campaign_id, list_id) and references to both tables.
  unfoldable pub insert_lists : ℕ → List ℕ → Store → Response (Unit {0}) × Store
  insert_lists i ids s =
      if has_twice ids
        || (any (λ j. not (list_exists j)) ids || not (is_some (find_campaign i s.campaigns)))
      then (refused 500 "err.unexpected", s)
      else (
        ok tt,
        record s {
          campaign_lists =
              s.campaign_lists ++ map (λ j. record { campaign_id = i; list_id = j }) ids;
        },
      )

  abbrev pub insert_if_any : ℕ → List ℕ → Store → Response (Unit {0}) × Store
  unfolding insert_lists
  insert_if_any i [] s = (ok tt, s)
  insert_if_any i (j ∷ js) s = insert_lists i (j ∷ js) s

  -- The lists are chosen anew.
  unfoldable pub replace_lists : ℕ → ListValue → Store → Response (Unit {0}) × Store
  unfolding insert_if_any uuid_list
  replace_lists i absent s = (ok tt, s)
  replace_lists i v s = and_then (uuid_list v) s (λ ids.
      insert_if_any i (map uuid ids)
        (record s { campaign_lists = select (λ l. not (l.campaign_id == i)) s.campaign_lists }))

unfoldable pub find_unlocked : ℕ → Store → Response Campaign
find_unlocked i s = elim (find_campaign i s.campaigns) [
  | none ↦ not_found "err.campaign.notFound"
  | some c ↦
      if campaign_is c.status CampaignStatus.draft then ok c else conflict "err.campaign.locked"
]

unfoldable pub write_patch : ℕ → ℕ → Patch → Store → Store
unfolding apply_patch
write_patch now i p s = record s {
  campaigns = update_where (λ c. c.id == i) (apply_patch now p) s.campaigns;
}

-- A body that is no JSON is none.
abbrev pub read_body : Option Edit → Response Edit
read_body none = bad_request "err.json"
read_body (some e) = ok e

-- PATCH.
unfoldable pub edit_campaign :
    (Text → Text)
    → (Text → Text)
    → (Text → ℕ)
    → (ℕ → Bool)
    → ℕ
    → (Store → Store)
    → Option Edit
    → ℕ
    → Store
    → Response (Unit {0}) × Store
unfolding find_unlocked patch_of write_patch replace_lists
edit_campaign sanitize html_to_text uuid list_exists now meanwhile body i s =
    and_then (find_unlocked i s) s (λ c. and_then (read_body body) s (λ e.
      and_then (patch_of sanitize html_to_text e c.text_body_is_custom) s
        (λ p. replace_lists uuid list_exists i e.list_ids (write_patch now i p (meanwhile s)))))

-- DELETE, with the rows that the schema deletes along.
unfoldable pub remove_campaign : ℕ → Store → Store
remove_campaign i s = record s {
  campaigns = select (λ c. not (c.id == i)) s.campaigns;
  campaign_lists = select (λ l. not (l.campaign_id == i)) s.campaign_lists;
  recipients = select (λ r. not (r.campaign_id == i)) s.recipients;
}

unfoldable pub find_removable : ℕ → Store → Response Campaign
find_removable i s = elim (find_campaign i s.campaigns) [
  | none ↦ not_found "err.campaign.notFound"
  | some c ↦
      if campaign_is c.status CampaignStatus.sending
      then conflict "err.campaign.cancelBeforeDelete"
      else ok c
]

unfoldable pub delete_campaign : (Store → Store) → ℕ → Store → Response (Unit {0}) × Store
unfolding find_removable remove_campaign
delete_campaign meanwhile i s =
    and_then (find_removable i s) s (λ c. (ok tt, remove_campaign i (meanwhile s)))
