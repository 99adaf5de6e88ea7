-- ===== src/Acquisition/Events.antt =====
-- contexts/data_acquisition/domain/events.py: an event is its payload.
use novaapi.Common.{ℕ, String, Option}
use novaapi.Acquisition.Types.{DataProvider, AcquisitionFormat, VariableCategory}

pub data Event : Type 0 where
  dataset_source_registered : ℕ → Option ℕ → String → DataProvider → Event
  dataset_catalogued : ℕ → ℕ → String → ℕ → Event
  dataset_revised : ℕ → ℕ → ℕ → ℕ → Event
  predictor_variable_registered : ℕ → Option ℕ → String → VariableCategory → Event
  variable_selection_created : ℕ → ℕ → String → ℕ → Event
  variable_selection_confirmed : ℕ → ℕ → Event
  acquisition_job_scheduled : ℕ → ℕ → DataProvider → AcquisitionFormat → Event
  acquisition_job_started : ℕ → ℕ → Event
  acquisition_job_completed : ℕ → ℕ → ℕ → Event
  acquisition_job_failed : ℕ → ℕ → String → Event
