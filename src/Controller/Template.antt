-- ===== src/Controller/Template.antt =====
-- JobTemplateController: pkg/controller/jobflow_template_controller.go.
pub mod Status
pub mod Watch
