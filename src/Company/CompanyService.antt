-- ===== src/Company/CompanyService.antt =====
-- `CompanyService` of backend/app/modules/company/service.py.
use retail_os.Core.Versioned.{versioned_update}
use retail_os.Core.Exceptions.{conflict_exception, not_found_exception}
use retail_os.Prelude.Fields.{set, set_required, is_null, is_set}
use retail_os.Company.Models.{Company}
use retail_os.Core.Db.{Db}
use retail_os.Company.CompanyRepository.{is_company}
use retail_os.Company.Schemas.{CompanyUpdate, CompanyCreate}
use retail_os.Prelude.{◌+◌, ◌&&◌, none, if◌then◌else◌, ◌==◌, ◌||◌, true, Bool, ℕ}
use retail_os.Core.Session.{pure, ◌>>◌, uuid4, or_raise, M, ◌>>=◌}
use retail_os.Company.CompanyRepository

unfoldable pub get : ℕ → M Company
unfolding ◌>>=◌ CompanyRepository.get_by_id
get company_id = CompanyRepository.get_by_id company_id >>= λ company.
    or_raise company (not_found_exception "Company not found")

abbrev pub new_company : ℕ → CompanyCreate → Company
new_company id r = record {
  id = id;
  name = r.name;
  brand_name = r.brand_name;
  logo_url = r.logo_url;
  gst_number = r.gst_number;
  pan = r.pan;
  address_line = r.address_line;
  city = r.city;
  state = r.state;
  country = r.country;
  pincode = r.pincode;
  mobile = r.mobile;
  email = r.email;
  website = r.website;
  currency = r.currency;
  timezone = r.timezone;
  financial_year_start_month = r.financial_year_start_month;
  invoice_prefix = r.invoice_prefix;
  invoice_footer = r.invoice_footer;
  default_tax_percent = r.default_tax_percent;
  is_active = true;
  deleted_at = none;
  version = 1;
}

unfoldable pub register_new_company : CompanyCreate → M Company
register_new_company request = do
  id ← uuid4
  CompanyRepository.create (new_company id request)
  pure (new_company id request)

abbrev pub has_changes : CompanyUpdate → Bool
has_changes r =
    is_set r.name
    || is_set r.brand_name
    || is_set r.logo_url
    || is_set r.gst_number
    || is_set r.pan
    || is_set r.address_line
    || is_set r.city
    || is_set r.state
    || is_set r.country
    || is_set r.pincode
    || is_set r.mobile
    || is_set r.email
    || is_set r.website
    || is_set r.currency
    || is_set r.timezone
    || is_set r.financial_year_start_month
    || is_set r.invoice_prefix
    || is_set r.invoice_footer
    || is_set r.default_tax_percent
    || is_set r.is_active

abbrev pub apply_changes : CompanyUpdate → Company → Company
apply_changes r c = record c {
  name = set_required r.name c.name;
  brand_name = set r.brand_name c.brand_name;
  logo_url = set r.logo_url c.logo_url;
  gst_number = set r.gst_number c.gst_number;
  pan = set r.pan c.pan;
  address_line = set r.address_line c.address_line;
  city = set r.city c.city;
  state = set r.state c.state;
  country = set r.country c.country;
  pincode = set r.pincode c.pincode;
  mobile = set r.mobile c.mobile;
  email = set r.email c.email;
  website = set r.website c.website;
  currency = set_required r.currency c.currency;
  timezone = set_required r.timezone c.timezone;
  financial_year_start_month =
      set_required r.financial_year_start_month c.financial_year_start_month;
  invoice_prefix = set r.invoice_prefix c.invoice_prefix;
  invoice_footer = set r.invoice_footer c.invoice_footer;
  default_tax_percent = set r.default_tax_percent c.default_tax_percent;
  is_active = set_required r.is_active c.is_active;
  version = c.version + 1;
}

-- a null in a column that is NOT NULL
abbrev pub violates : CompanyUpdate → Db → Bool
violates r db =
    is_null r.name
    || is_null r.currency
    || is_null r.timezone
    || is_null r.financial_year_start_month
    || is_null r.is_active

abbrev pub is_version : ℕ → ℕ → Company → Bool
is_version company_id expected_version c = c.id == company_id && c.version == expected_version

unfoldable pub update : ℕ → CompanyUpdate → ℕ → M Company
update company_id request expected_version =
    if has_changes request
    then versioned_update (λ db. db.companies) (λ companies db. record db { companies = companies })
        (is_version company_id expected_version) (apply_changes request) (violates request)
        (CompanyRepository.get_by_id company_id) (not_found_exception "Company not found")
        (conflict_exception "Company was modified by someone else. Reload and try again.")
    else get company_id
