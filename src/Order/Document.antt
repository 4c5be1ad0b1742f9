-- ===== src/Order/Document.antt =====
-- services/order_service/entity/repository/order_document.go: the order as Elasticsearch keeps it.
-- A pointer that is nil is written as the zero value, and a zero value is read as nil.
use inno_taxi.Base.{
  String, Option, none, some, Bool, true, false, ℕ, zero, ◌≡◌, ◌≢◌, refl, arith, eq_iff, ◌↔◌, ap,
}
use inno_taxi.Base.Int.{ℤ, pos}
use inno_taxi.Base.Tests.{◌==◌, if◌then◌else◌}
use inno_taxi.Order.Entity.{Order}

pub record OrderDocument (F : Type 0) : Type 0 where
  pub id : String
  pub user_id : String
  pub driver_id : String
  pub taxi_type : String
  pub start_lat : F
  pub start_lng : F
  pub destination_lat : F
  pub destination_lng : F
  pub status : String
  pub price_minor_units : ℤ  -- int64
  pub rating : ℤ  -- int32
  pub comment : String
  pub created_at : ℕ
  pub updated_at : ℕ

abbrev pub string_or_empty : Option String → String
string_or_empty none = ""
string_or_empty (some s) = s

abbrev pub int_or_zero : Option ℤ → ℤ
int_or_zero none = pos 0
int_or_zero (some n) = n

abbrev pub some_string : String → Option String
some_string s = if s == "" then none else some s

abbrev pub is_zero_int : ℤ → Bool
is_zero_int (pos zero) = true
is_zero_int _ = false

abbrev pub some_int : ℤ → Option ℤ
some_int n = if is_zero_int n then none else some n

string_or_empty-some_string : (s : String) → string_or_empty (some_string s) ≡ s
string_or_empty-some_string s = ground (arith, eq_iff s "")

int_or_zero-some_int : (n : ℤ) → int_or_zero (some_int n) ≡ n
int_or_zero-some_int n = ground arith

some_string-string_or_empty :
    (s : Option String) → (some_string (string_or_empty s) ≡ s) ↔ (s ≢ some "")
some_string-string_or_empty none = (λ h e. cc, λ h. refl)
some_string-string_or_empty (some s) =
    (λ h e. ground (arith, eq_iff s ""), λ h. ground (arith, eq_iff s ""))

some_int-int_or_zero : (n : Option ℤ) → (some_int (int_or_zero n) ≡ n) ↔ (n ≢ some (pos 0))
some_int-int_or_zero none = (λ h e. cc, λ h. refl)
some_int-int_or_zero (some n) = (λ h e. ground arith, λ h. ground arith)

module _ {F : Type 0} where
  -- `OrderDocumentFromDomain`
  unfoldable pub document_from_domain : Order F → OrderDocument F
  document_from_domain o = record {
    id = o.id;
    user_id = o.user_id;
    driver_id = string_or_empty o.driver_id;
    taxi_type = o.taxi_type;
    start_lat = o.start.lat;
    start_lng = o.start.lng;
    destination_lat = o.destination.lat;
    destination_lng = o.destination.lng;
    status = o.status;
    price_minor_units = int_or_zero o.price_minor_units;
    rating = int_or_zero o.rating;
    comment = string_or_empty o.comment;
    created_at = o.created_at;
    updated_at = o.updated_at;
  }

  -- `OrderDocument.ToDomain`
  unfoldable pub to_domain : OrderDocument F → Order F
  to_domain d = record {
    id = d.id;
    user_id = d.user_id;
    driver_id = some_string d.driver_id;
    taxi_type = d.taxi_type;
    start = record { lat = d.start_lat; lng = d.start_lng };
    destination = record { lat = d.destination_lat; lng = d.destination_lng };
    status = d.status;
    price_minor_units = some_int d.price_minor_units;
    rating = some_int d.rating;
    comment = some_string d.comment;
    created_at = d.created_at;
    updated_at = d.updated_at;
  }

  -- A document is rebuilt from the order that is read from it.
  document-to_domain : (d : OrderDocument F) → document_from_domain (to_domain d) ≡ d
  unfolding document_from_domain to_domain
  document-to_domain d = ground (
    arith,
    string_or_empty-some_string d.driver_id,
    string_or_empty-some_string d.comment,
    int_or_zero-some_int d.price_minor_units,
    int_or_zero-some_int d.rating,
  )

  -- No pointer of the order is to a zero value.
  pub record IsNonzero (o : Order F) : Type 0 where
    pub driver : o.driver_id ≢ some ""
    pub price : o.price_minor_units ≢ some (pos 0)
    pub rate : o.rating ≢ some (pos 0)
    pub text : o.comment ≢ some ""

  -- An order comes back whole exactly if it has no pointer to a zero value.
  to_domain-document : (o : Order F) → (to_domain (document_from_domain o) ≡ o) ↔ IsNonzero o
  unfolding document_from_domain to_domain
  to_domain-document o = (
    λ same. record {
      driver = (some_string-string_or_empty o.driver_id).0 (ap (λ (x : Order F). x.driver_id) same);
      price =
          (some_int-int_or_zero o.price_minor_units).0
            (ap (λ (x : Order F). x.price_minor_units) same);
      rate = (some_int-int_or_zero o.rating).0 (ap (λ (x : Order F). x.rating) same);
      text = (some_string-string_or_empty o.comment).0 (ap (λ (x : Order F). x.comment) same);
    },
    λ h. λ i. record o {
      driver_id = (some_string-string_or_empty o.driver_id).1 h.driver i;
      price_minor_units = (some_int-int_or_zero o.price_minor_units).1 h.price i;
      rating = (some_int-int_or_zero o.rating).1 h.rate i;
      comment = (some_string-string_or_empty o.comment).1 h.text i;
    },
  )

  -- A document is rebuilt from the order that is read from it, and an order comes back whole from its
  -- document exactly if it has no pointer to a zero value.
  pub document_roundtrip :
      (d : OrderDocument F) (o : Order F)
      → (document_from_domain (to_domain d) ≡ d)
        × ((to_domain (document_from_domain o) ≡ o) ↔ IsNonzero o)
  document_roundtrip d o = (document-to_domain d, to_domain-document o)
