-- ===== src/Examples/Taxes.antt =====
-- One employee in Nigeria and one in Ghana.
use Prim.Native.String.{String}
use payflow_backend.Common.{◌⊎◌, ◌≡◌, true, arith}
use payflow_backend.Common.Int.{pos, ◌≤ℤ◌, ◌+ℤ◌}
use payflow_backend.Tax.Nigeria.{calculate, calculate_monthly_paye}
use payflow_backend.Tax.Nigeria.Spec.{Month, input_of, result_of}
use payflow_backend.Tax.Nigeria.Laws.{
  calculate-result_of, calculate_take_home, calculate_monthly_paye_rise,
}
use payflow_backend.Tax.Ghana.{calculate as calculate_ghana}
use payflow_backend.Tax.Ghana.Spec.{
  Month as GhanaMonth, input_of as input_of_ghana, result_of as result_of_ghana,
}
use payflow_backend.Tax.Ghana.Laws.{calculate-result_of_ghana, calculate_take_home_ghana}
use payflow_backend.Tax.Selector.{calculate_for_country}
use payflow_backend.Tax.Selector.Laws.{
  ghana_month, shared_result_of, calculate_for_country-result_of,
}

-- NGN 300,000 basic, 100,000 housing, 50,000 transport, and 1,200,000 rent a year.
abbrev a_month : Month
a_month = record {
  basic = 30_000_000;
  housing = 10_000_000;
  transport = 5_000_000;
  other = 0;
  rent = 120_000_000;
  pension_on = true;
  nhf_on = true;
  nsitf_on = true;
  paye_on = true;
}

calculate-result_of_example : calculate (input_of a_month) ≡ result_of a_month
calculate-result_of_example = calculate-result_of a_month (omega arith) (omega arith)

calculate_take_home_example :
    (pos 0 ≤ℤ (calculate (input_of a_month)).total_employee_deductions)
    × ((calculate (input_of a_month)).total_employee_deductions ≤ℤ pos 45_000_000)
    × ((calculate (input_of a_month)).paye ≤ℤ pos 11_250_000)
calculate_take_home_example = calculate_take_home a_month (omega arith) (omega arith)

calculate_monthly_paye_rise_example :
    let before =
      (calculate_monthly_paye (pos 30_000_000) (pos 2_000_000) (pos 500_000) (pos 0)).0 in
    let after = (calculate_monthly_paye (pos 35_000_000) (pos 2_000_000) (pos 500_000) (pos 0)).0 in
    (before ≤ℤ after) × (after +ℤ pos 30_000_000 ≤ℤ before +ℤ pos 35_000_000)
calculate_monthly_paye_rise_example =
    calculate_monthly_paye_rise 30_000_000 35_000_000 2_000_000 500_000 0 (omega arith)
      (omega arith) (omega arith) (omega arith) (omega arith)

-- GHS 8,000 basic and 2,000 housing.
abbrev a_ghana_month : GhanaMonth
a_ghana_month = record {
  basic = 800_000;
  housing = 200_000;
  transport = 0;
  other = 0;
  pension_on = true;
  paye_on = true;
}

calculate-result_of_ghana_example :
    calculate_ghana (input_of_ghana a_ghana_month) ≡ result_of_ghana a_ghana_month
calculate-result_of_ghana_example = calculate-result_of_ghana a_ghana_month (omega arith)

calculate_take_home_ghana_example :
    (pos 0 ≤ℤ (calculate_ghana (input_of_ghana a_ghana_month)).total_employee_deductions)
    × ((calculate_ghana (input_of_ghana a_ghana_month)).total_employee_deductions ≤ℤ pos 1_000_000)
calculate_take_home_ghana_example = calculate_take_home_ghana a_ghana_month (omega arith)

abbrev cedis : String
cedis = "GHS"

calculate_for_country-result_of_example :
    ((cedis ≡ cedis)
      × (calculate_for_country cedis (input_of a_month) ≡ shared_result_of (ghana_month a_month)))
    ⊎ ((cedis ≡ cedis → ⊥) × (calculate_for_country cedis (input_of a_month) ≡ result_of a_month))
calculate_for_country-result_of_example =
    calculate_for_country-result_of cedis a_month (omega arith) (omega arith)
